-- ===== src/Install/Calls.antt =====
-- The calls of internal/install/stage.go on the system: each is an event that goes to the front of a
-- history, and what it answers may depend on all that was called before. `System`, a parameter, holds
-- the answers.
use mikrotik_chr_script.Common.{
  ℕ, Bool, true, List, ◌∷◌, Option, if◌then◌else◌, ◌≡◌, refl, Bool-cases, inl, inr, arith,
}
use mikrotik_chr_script.Common.Bytes.{Bytes}
use mikrotik_chr_script.Common.Outcome.{Result, ok, err, wrap_err}
use mikrotik_chr_script.Install.Resources.{Statfs}

-- `runner.Run` with a program and its arguments; `os.Remove`, `os.RemoveAll` and `os.MkdirAll` of a
-- path; a file made at a path, with its data, as a copy of another, or as a link
pub data Event : Type 0 where
  run : List Bytes → Event
  remove remove_tree make_dir : Bytes → Event
  make_file copy_file make_link : Bytes → Bytes → Event

pub record Reply : Type 0 where
  pub success : Bool
  pub output : Bytes

-- How `os.Remove` ends: `os.IsNotExist`, `isDirectoryNotEmpty`, or another error
pub data Removal : Type 0 where
  gone missing not_empty refused : Removal

abbrev pub History : Type 0
History = List Event

pub data FileKind : Type 0 where
  regular_file directory_file other_file : FileKind

-- What os.Stat or os.Lstat says of a path: `os.IsNotExist`, another error, or the kind and the size
pub data Lookup : Type 0 where
  absent unreadable : Lookup
  found : FileKind → ℕ → Lookup

-- A tree of files as `copyTree` meets it: a path that Lstat cannot read or that is of another kind, a
-- directory that cannot be listed or its entries, a regular file, a link and what it holds
mutual
  pub data Tree : Type 0 where
    unread_path other_path unlisted : Tree
    folder : Entries → Tree
    plain_file : Tree
    link : Option Bytes → Tree

  pub data Entries : Type 0 where
    no_entries : Entries
    entry : Bytes → Tree → Entries → Entries

-- `temporary` is the directory that os.MkdirTemp makes below another; `performs` is whether a call that
-- makes something succeeds.
pub record System : Type 0 where
  pub reply : History → List Bytes → Reply
  pub read : History → Bytes → Option Bytes
  pub removal : History → Bytes → Removal
  pub stat : History → Bytes → Lookup
  pub lstat : History → Bytes → Lookup
  pub statfs : History → Bytes → Option Statfs
  pub tree : History → Bytes → Tree
  pub temporary : History → Bytes → Option Bytes
  pub performs : History → Event → Bool

-- A step of the program: a result and the history behind it
abbrev pub Step {ℓ κ} : Type ℓ → Type κ → Type (ℓ ⊔ κ)
Step E A = History → Result E A × History

infixl 5 ◌>>=◌ ◌>>◌
abbrev pub bind_step {ℓ κ ι} :
    {E : Type ℓ} {A : Type κ} {B : Type ι}
    → Result E A × History
    → (A → Step E B)
    → Result E B × History
bind_step (ok a, h) f = f a h
bind_step (err e, h) f = (err e, h)

abbrev pub ◌>>=◌ {ℓ κ ι} :
    {E : Type ℓ} {A : Type κ} {B : Type ι} → Step E A → (A → Step E B) → Step E B
(m >>= f) h = bind_step (m h) f

abbrev pub ◌>>◌ {ℓ κ} : {E : Type ℓ} {B : Type κ} → Step E (Unit {0}) → Step E B → Step E B
m >> k = m >>= λ _. k

abbrev pub pure_step {ℓ κ} : {E : Type ℓ} {A : Type κ} → Result E A → Step E A
pure_step r h = (r, h)

-- `runner.Run`: the output, or an error
abbrev pub run_command {ℓ} : {E : Type ℓ} → System → List Bytes → E → Step E Bytes
run_command system argv e h =
    let r = system.reply h argv in (if r.success then ok r.output else err e, run argv ∷ h)

-- A call that makes something, and the error where it fails
abbrev pub perform {ℓ} : {E : Type ℓ} → System → Event → E → Step E (Unit {0})
perform system event e h = (if system.performs h event then ok tt else err e, event ∷ h)

-- The same step under another error type
abbrev pub wrap_step {ℓ κ ι} :
    {E : Type ℓ} {F : Type κ} {A : Type ι} → (E → F) → Step E A → Step F A
wrap_step f m h = let r = m h in (wrap_err f r.0, r.1)

-- A sequence that succeeds: its first step does, and so does the rest from there.
pub bind_step-ok {ℓ κ ι} :
    {E : Type ℓ} {A : Type κ} {B : Type ι} (r : Result E A × History) (f : A → Step E B) {b : B}
    {h' : History}
    → bind_step r f ≡ (ok b, h')
    → (a : A) × (h1 : History) × (r ≡ (ok a, h1)) × (f a h1 ≡ (ok b, h'))
bind_step-ok (ok a, h1) f eq = (a, h1, refl, eq)
bind_step-ok (err e, h1) f eq = absurd cc

pub run_command-ok {ℓ} :
    {E : Type ℓ} (system : System) (argv : List Bytes) (e : E) (h : History) {out : Bytes}
    {h' : History}
    → run_command system argv e h ≡ (ok out, h')
    → ((system.reply h argv).success ≡ true)
      × (out ≡ (system.reply h argv).output)
      × (h' ≡ run argv ∷ h)
run_command-ok system argv e h eq = elim (Bool-cases (system.reply h argv).success) [
  | inl good ↦ (good, ground arith, ground arith)
  | inr bad ↦ absurd (ground arith)
]
