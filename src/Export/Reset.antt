-- ===== src/Export/Reset.antt =====
-- A table of a store, and the loops of evmd/export.go that set every entry that an iterator visits.
use mathlib.Core.List.{append_assoc}
use zk_cosmos_eth_bridge.Common.{
  ◌≡◌, refl, ap, sym, ◌∙◌, false, Option, some, List, [], ◌∷◌, ◌++◌, arith, if◌then◌else◌, Bytes,
  text_eq, All, All-append, Option-cases, Bool-cases, inl, inr, Outcome, ok, err, ◌>>=◌, or_err,
  Bool, false,
}

-- Whether the iterator opens, the entries that it visits, by their keys, and the setter, which may
-- fail.
pub record Table (St V : Type 0) : Type 0 where
  pub opens : St → Bool
  pub entries : St → List (Bytes × V)
  pub set : Bytes → V → St → Option St

module _ {St V E : Type 0} (t : Table St V) (f : V → V) (e : E) where
  -- `if iterErr = Set(...); iterErr != nil { return true }` for every entry, and `return iterErr`.
  unfoldable pub reset_all : List (Bytes × V) → St → Outcome E St
  reset_all [] s = ok s
  reset_all ((k, v) ∷ rest) s = do s1 ← or_err (t.set k (f v) s) e; reset_all rest s1

  -- `Iterate...`, which returns the error of an iterator that does not open.
  unfoldable pub reset_table : E → St → Outcome E St
  unfolding reset_all
  reset_table unopened s = if t.opens s then reset_all (t.entries s) s else err unopened

  -- A walk that ends without an error is the loop over the entries.
  pub reset_table-ok :
      (unopened : E) (s s' : St)
      → reset_table unopened s ≡ ok s'
      → reset_all (t.entries s) s ≡ ok s'
  unfolding reset_table
  reset_table-ok unopened s s' h = elim (Bool-cases (t.opens s)) [
    | inl e ↦ sym (ap (λ b. if b then reset_all (t.entries s) s else err unopened) e) ∙ h
    | inr e ↦ ground (arith, e, h)
  ]

-- No entry has the key.
abbrev pub Fresh : {V : Type 0} → Bytes → List (Bytes × V) → Type 0
Fresh k entries = All (λ e. text_eq e.0 k ≡ false) entries

abbrev pub Distinct : {V : Type 0} → List (Bytes × V) → Type 0
Distinct [] = Unit
Distinct ((k, v) ∷ rest) = Fresh k rest × Distinct rest

-- A store keeps a value that is set under a key that it has in the place of the old one. A key that
-- it does not have may get a place anywhere.
pub record IsTable {St V : Type 0} (t : Table St V) : Type 0 where
  pub set-entries :
      (k : Bytes) (v v' : V) (before rest : List (Bytes × V)) (s s' : St)
      → t.entries s ≡ before ++ ((k, v') ∷ rest)
      → t.set k v s ≡ some s'
      → t.entries s' ≡ before ++ ((k, v) ∷ rest)

-- No key of the second list is in the first.
abbrev pub Apart : {V : Type 0} → List (Bytes × V) → List (Bytes × V) → Type 0
Apart before entries = All (λ e. Fresh e.0 before) entries

text_eq_sym : (a b : Bytes) → text_eq a b ≡ text_eq b a
text_eq_sym [] [] = refl
text_eq_sym [] (y ∷ b) = refl
text_eq_sym (x ∷ a) [] = refl
text_eq_sym (x ∷ a) (y ∷ b) = ground (arith, text_eq_sym a b)

-- What the loop does to an entry.
abbrev pub mapped : {V : Type 0} → (V → V) → List (Bytes × V) → List (Bytes × V)
mapped f [] = []
mapped f ((k, v) ∷ rest) = (k, f v) ∷ mapped f rest

Apart-snoc :
    {V : Type 0} (k : Bytes) (v : V) (before todo : List (Bytes × V))
    → Fresh k todo
    → Apart before todo
    → Apart (before ++ ((k, v) ∷ [])) todo
Apart-snoc k v before [] h ha = tt
Apart-snoc k v before ((k', v') ∷ rest) h ha = (
  All-append (λ e. text_eq e.0 k' ≡ false) before ((k, v) ∷ []) ha.0 (text_eq_sym k k' ∙ h.0, tt),
  Apart-snoc k v before rest h.1 ha.1,
)

module _ {St V E : Type 0} (t : Table St V) (lawful : IsTable t) (f : V → V) (e : E) where
  reset_all_from :
      (before todo : List (Bytes × V)) (s s' : St)
      → t.entries s ≡ before ++ todo
      → Distinct todo
      → Apart before todo
      → reset_all t f e todo s ≡ ok s'
      → t.entries s' ≡ before ++ mapped f todo
  unfolding reset_all
  reset_all_from before [] s s' start d ha h =
      let same : s ≡ s' = cc in ap t.entries (sym same) ∙ start
  reset_all_from before ((k, v) ∷ rest) s s' start d ha h = elim (Option-cases (t.set k (f v) s)) [
    | inl none_set ↦ ground (arith, none_set, h)
    | inr (s1, was_set) ↦
        let next : reset_all t f e rest s1 ≡ ok s' =
          sym (ap (λ o. or_err o e >>= reset_all t f e rest) was_set) ∙ h in
        let after : t.entries s1 ≡ (before ++ ((k, f v) ∷ [])) ++ rest =
          lawful.set-entries k (f v) v before rest s s1 start was_set
          ∙ sym (append_assoc before ((k, f v) ∷ []) rest) in
        reset_all_from (before ++ ((k, f v) ∷ [])) rest s1 s' after d.1
          (Apart-snoc k (f v) before rest d.0 ha.1) next
        ∙ append_assoc before ((k, f v) ∷ []) (mapped f rest)
  ]

  Apart-nil : (todo : List (Bytes × V)) → Apart [] todo
  Apart-nil [] = tt
  Apart-nil (x ∷ rest) = (tt, Apart-nil rest)

  -- A loop that ends without an error has set every entry of the table, and no other.
  pub reset_all-entries :
      (s s' : St)
      → Distinct (t.entries s)
      → reset_all t f e (t.entries s) s ≡ ok s'
      → t.entries s' ≡ mapped f (t.entries s)
  reset_all-entries s s' d h =
      reset_all_from [] (t.entries s) s s' refl d (Apart-nil (t.entries s)) h
