-- ===== src/Files.antt =====
-- Appends to a file, as src/kil/target_http.py and src/kil/ext_authz_http.py make them.
use kil.Prelude.{
  ◌≡◌, ◌⊎◌, inl, inr, refl, arith, true, false, ℕ, ◌+◌, Bool, List, [], ◌∷◌, Option, none, some,
  leb, ◌==◌, Result, ok, raise, guard, os_error, ◌>>=◌, ◌>>◌, if◌then◌else◌,
}

-- What the operating system answers to one append: whether the file opens, the counts that the
-- writes return (`none` for an OSError), and whether the data is synced.
pub record FileAnswers : Type 0 where
  pub opens : Bool
  pub writes : List (Option ℕ)
  pub syncs : Bool

-- `while offset < len(payload)`. The answers are taken in turn; where none is left the writer is
-- taken to have failed.
unfoldable pub write_all : ℕ → ℕ → List (Option ℕ) → Result (Unit {0})
write_all size offset [] = guard (leb size offset) os_error
write_all size offset (none ∷ answers) = guard (leb size offset) os_error
write_all size offset (some written ∷ answers) =
    let rest = write_all size (offset + written) answers in
    if leb size offset then ok tt else if written == 0 then raise os_error else rest

-- The file is opened, the bytes are written, and they are synced.
unfoldable pub append_file : ℕ → FileAnswers → Result (Unit {0})
unfolding write_all
append_file size a = do guard a.opens os_error; write_all size 0 a.writes; guard a.syncs os_error

-- A write that went through, or that an OSError ended.
abbrev pub OnlyOsError : Result (Unit {0}) → Type 0
OnlyOsError r = (r ≡ ok tt) ⊎ (r ≡ raise os_error)

guard-OnlyOsError : (b : Bool) → OnlyOsError (guard b os_error)
guard-OnlyOsError true = inl refl
guard-OnlyOsError false = inr refl

sequence-OnlyOsError :
    (r r' : Result (Unit {0})) → OnlyOsError r → OnlyOsError r' → OnlyOsError (r >>= λ done. r')
sequence-OnlyOsError (ok u) r' h k = k
sequence-OnlyOsError (raise e) r' (inl h) k = cc h
sequence-OnlyOsError (raise e) r' (inr h) k = inr (cc h)

write_all-OnlyOsError :
    (size offset : ℕ) (answers : List (Option ℕ)) → OnlyOsError (write_all size offset answers)
unfolding write_all
write_all-OnlyOsError size offset [] = guard-OnlyOsError _
write_all-OnlyOsError size offset (none ∷ answers) = guard-OnlyOsError _
write_all-OnlyOsError size offset (some written ∷ answers) =
    ground (arith, write_all-OnlyOsError size (offset + written) answers)

pub append_file-OnlyOsError : (size : ℕ) (a : FileAnswers) → OnlyOsError (append_file size a)
unfolding append_file
append_file-OnlyOsError size a =
    sequence-OnlyOsError (guard a.opens os_error) _ (guard-OnlyOsError a.opens) (
      sequence-OnlyOsError (write_all size 0 a.writes) _ (write_all-OnlyOsError size 0 a.writes)
        (guard-OnlyOsError a.syncs))
