-- ===== src/Target/Markers.antt =====
-- What the ledger of src/kil/target_http.py keeps over every run of requests.
use kil.Prelude.{
  contains_text, is_distinct, ◌≡◌, refl, sym, ap, ◌∙◌, inl, inr, true, false, List, [], ◌∷◌, ◌++◌,
  map, Result, ok, raise, Bool-cases, length, utf8_length, leb, >>=-eq-ok, ◌+◌,
}
use mathlib.Core.Path.{subst}
use kil.QState.Distinct.{is_distinct-append}
use kil.Canonical.{canonical_json}
use kil.Files.{append_file}
use kil.Target.Store.{
  LedgerRecord, Answers, Ledger, Marking, ledger_record, check_ledger_record, write_record,
  recorded, append_marker, ledger_value, add_record, invalidate, max_records,
}

-- The identifiers that the ledger holds are those of its records, and no two are the same.
pub record Consistent (l : Ledger) : Type 0 where
  pub held : map (λ (r : LedgerRecord). r.request_id) l.records ≡ l.request_ids
  pub distinct : is_distinct l.request_ids ≡ true

map-append :
    (rs : List LedgerRecord) (r : LedgerRecord)
    → map (λ (x : LedgerRecord). x.request_id) (rs ++ r ∷ [])
      ≡ map (λ (x : LedgerRecord). x.request_id) rs ++ r.request_id ∷ []
map-append [] r = refl
map-append (x ∷ rs) r = ap (λ ys. x.request_id ∷ ys) (map-append rs r)

add_record-Consistent :
    (r : LedgerRecord) (l : Ledger)
    → contains_text r.request_id l.request_ids ≡ false
    → Consistent l
    → Consistent (add_record r l)
unfolding add_record
add_record-Consistent r l fresh k = record {
  held = map-append l.records r ∙ ap (λ ids. ids ++ r.request_id ∷ []) k.held;
  distinct = is_distinct-append l.request_ids r.request_id k.distinct fresh;
}

invalidate-Consistent : (l : Ledger) → Consistent l → Consistent (invalidate l)
unfolding invalidate
invalidate-Consistent l k = record { held = k.held; distinct = k.distinct }

same_request_id :
    (r r' : LedgerRecord) → Path (Result LedgerRecord) (ok r) (ok r') → r.request_id ≡ r'.request_id
same_request_id r r' e = cc e

write_record-request_id :
    (m : Marking) (a : Answers) (r : LedgerRecord)
    → write_record m a ≡ ok r
    → m.request_id ≡ r.request_id
unfolding write_record ledger_record
write_record-request_id m a r h =
    let (_, _, h₁) = >>=-eq-ok (check_ledger_record (ledger_record m a)) _ h in
    let (text, _, h₂) = >>=-eq-ok (canonical_json (ledger_value (ledger_record m a))) _ h₁ in
    let (_, _, h₃) = >>=-eq-ok (append_file (utf8_length text + 1) a.file) _ h₂ in
    same_request_id (ledger_record m a) r h₃

-- What an append does: it adds a fresh record of the request, or it fails and invalidates the ledger.
unfoldable pub Appended : Marking → Ledger → Result LedgerRecord × Ledger → Type 0
Appended m l (ok r, l') =
    (m.request_id ≡ r.request_id)
    × (contains_text m.request_id l.request_ids ≡ false)
    × (l' ≡ add_record r l)
Appended m l (raise e, l') = l' ≡ invalidate l

recorded-Appended :
    (m : Marking) (l : Ledger) (x : Result LedgerRecord)
    → ((r : LedgerRecord) → x ≡ ok r → m.request_id ≡ r.request_id)
    → contains_text m.request_id l.request_ids ≡ false
    → Appended m l (recorded l x)
unfolding recorded Appended
recorded-Appended m l (ok r) own fresh = (own r refl, fresh, refl)
recorded-Appended m l (raise e) own fresh = refl

pub append_marker-Appended :
    (m : Marking) (a : Answers) (l : Ledger) → Appended m l (append_marker m a l)
unfolding append_marker Appended
append_marker-Appended m a l = elim (Bool-cases (contains_text m.request_id l.request_ids)) [
  | inl e ↦ rw e refl
  | inr e ↦ rw e (elim (Bool-cases (leb max_records (length l.records))) [
    | inl full ↦ rw full refl
    | inr room ↦ rw room (
        recorded-Appended m l (write_record m a)
          (λ r written. write_record-request_id m a r written) e)
  ])
]

pub Appended-Consistent :
    (m : Marking) (l : Ledger) (x : Result LedgerRecord × Ledger)
    → Appended m l x
    → Consistent l
    → Consistent x.1
unfolding Appended
Appended-Consistent m l (ok r, l') (own, fresh, same) k =
    subst Consistent (sym same)
      (add_record-Consistent r l (subst (λ i. contains_text i l.request_ids ≡ false) own fresh) k)
Appended-Consistent m l (raise e, l') same k =
    subst Consistent (sym same) (invalidate-Consistent l k)
