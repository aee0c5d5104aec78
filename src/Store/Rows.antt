-- ===== src/Store/Rows.antt =====
-- A table as the list of its rows, with `SELECT … WHERE id = ?`, `UPDATE … WHERE id = ?` and
-- `DELETE … WHERE id = ?` over the column `key`.
use open_cuttles.Base.{
  String, ◌≡◌, refl, ◌≢◌, Option, none, some, List, [], ◌∷◌, arith, inl, inr, Bool-cases, str_eq,
  eq_iff, if◌then◌else◌,
}
use mathlib.Core.Option

module _ {ℓ} {A : Type ℓ} (key : A → String) where
  unfoldable pub find : String → List A → Option A
  find id [] = none
  find id (a ∷ rest) = if str_eq (key a) id then some a else find id rest

  pub find-key : (id : String) (rows : List A) (a : A) → find id rows ≡ some a → key a ≡ id
  unfolding find
  find-key id [] a h = cc h
  find-key id (r ∷ rest) a h = elim (Bool-cases (str_eq (key r) id)) [
    | inl e ↦ ground (arith, h, e, eq_iff (key r) id)
    | inr e ↦ find-key id rest a (ground (arith, h, e))
  ]

  unfoldable pub update : String → (A → A) → List A → List A
  update id change [] = []
  update id change (a ∷ rest) = (if str_eq (key a) id then change a else a) ∷ update id change rest

  unfoldable pub remove : String → List A → List A
  remove id [] = []
  remove id (a ∷ rest) =
      let others = remove id rest in if str_eq (key a) id then others else a ∷ others

  module _ (change : A → A) (keeps : (a : A) → key (change a) ≡ key a) where
    pub find-update_self :
        (id : String) (rows : List A)
        → find id (update id change rows) ≡ Option.map change (find id rows)
    unfolding find update
    find-update_self id [] = refl
    find-update_self id (a ∷ rest) = elim (Bool-cases (str_eq (key a) id)) [
      | inl e ↦ rw (e, keeps a, e)
      | inr e ↦ rw (e, e) (find-update_self id rest)
    ]

    pub find-update_ne :
        (id other : String) (rows : List A)
        → other ≢ id
        → find other (update id change rows) ≡ find other rows
    unfolding find update
    find-update_ne id other [] h = refl
    find-update_ne id other (a ∷ rest) h = ground (
      arith,
      find-update_ne id other rest h,
      keeps a,
      eq_iff (key a) id,
      eq_iff (key a) other,
      eq_iff (key (change a)) other,
    )

  -- A column that the update does not write reads as before, in every row.
  pub column-update {κ} :
      {X : Type κ} (f : A → X) (id other : String) (change : A → A) (rows : List A)
      → ((a : A) → key (change a) ≡ key a)
      → ((a : A) → f (change a) ≡ f a)
      → Option.map f (find other (update id change rows)) ≡ Option.map f (find other rows)
  unfolding find update
  column-update f id other change [] h k = refl
  column-update f id other change (a ∷ rest) h k =
      let ih = column-update f id other change rest h k in
      elim (Bool-cases (str_eq (key a) id)) [
        | inl e ↦
            rw (e, h a)
              (elim (Bool-cases (str_eq (key a) other)) [ inl g ↦ rw (g, k a) | inr g ↦ rw g ih ])
        | inr e ↦ rw e (elim (Bool-cases (str_eq (key a) other)) [ inl g ↦ rw g | inr g ↦ rw g ih ])
      ]

  pub find-remove_self : (id : String) (rows : List A) → find id (remove id rows) ≡ none
  unfolding find remove
  find-remove_self id [] = refl
  find-remove_self id (a ∷ rest) = ground (arith, find-remove_self id rest)

  pub find-remove_ne :
      (id other : String) (rows : List A)
      → other ≢ id
      → find other (remove id rows) ≡ find other rows
  unfolding find remove
  find-remove_ne id other [] h = refl
  find-remove_ne id other (a ∷ rest) h =
      ground (arith, find-remove_ne id other rest h, eq_iff (key a) id, eq_iff (key a) other)
