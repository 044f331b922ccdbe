-- ===== src/Lexer/Keyword/Search.antt =====
-- src/lexer/ms_lexer.c: the binary search of `lexLookupKeyword`.
use Prim.Native.Nat.{Ordering}
use mslang_c.Base.{
  ℕ, zero, suc, ◌+◌, ◌-◌, ◌/◌, ◌≤◌, ◌<◌, ◌≡◌, ◌≢◌, ◌⊎◌, inl, inr, refl, sym, ap, ◌∙◌, false, Bytes,
  arith, ltb, ltb→lt, Bool-cases, if_cases,
}
use mslang_c.Lexer.Keyword.Order.{
  lex_order, lex_order_self, eq_of_lex_order, lex_order_asymm, HasNoZero, compare_word-lex_order,
  keyword_at-lt, keyword_at-HasNoZero,
}
use mslang_c.Lexer.Keyword.{
  keyword_at, keyword_count, compare_word, search_keyword, lex_lookup_keyword,
}
use mslang_c.Lexer.Kind.{TokKind, tok_ident}

-- `kind` is that of the word `w` in the table, or the table has no `w` and it is an identifier's.
abbrev pub IsKindOf : Bytes → TokKind → Type 0
IsKindOf w kind =
    ((i : ℕ) × (i < keyword_count) × ((keyword_at i).0 ≡ w) × (kind ≡ (keyword_at i).1))
    ⊎ ((kind ≡ tok_ident) × ((i : ℕ) → i < keyword_count → (keyword_at i).0 ≢ w))

-- If the table has `w`, it stands from `lo` up to `end`.
abbrev InRange : Bytes → ℕ → ℕ → Type 0
InRange w lo end = (i : ℕ) → i < keyword_count → (keyword_at i).0 ≡ w → (lo ≤ i) × (i < end)

Ordering-cases : (o : Ordering) → (o ≡ Ordering.lt) ⊎ (o ≡ Ordering.eq) ⊎ (o ≡ Ordering.gt)
Ordering-cases Ordering.lt = inl refl
Ordering-cases Ordering.eq = inr (inl refl)
Ordering-cases Ordering.gt = inr (inr refl)

leb_of_ltb : (a b : ℕ) → ltb a b ≡ false → b ≤ a
leb_of_ltb a b h = ground arith

trichotomy : (i j : ℕ) → (i < j) ⊎ (i ≡ j) ⊎ (j < i)
trichotomy i j = elim (Bool-cases (ltb i j)) [
  | inl e ↦ inl (ltb→lt i j e)
  | inr e ↦ elim (Bool-cases (ltb j i)) [
    | inl g ↦ inr (inr (ltb→lt j i g))
    | inr g ↦ inr (inl (ground arith))
  ]
]

-- Two indices whose words compare as less stand in that order.
lt_of_lex_order :
    (i j : ℕ)
    → i < keyword_count
    → lex_order (keyword_at i).0 (keyword_at j).0 ≡ Ordering.lt
    → i < j
lt_of_lex_order i j r l = elim (trichotomy i j) [
  | inl p ↦ p
  | inr (inl e) ↦
      let k = lex_order_self (keyword_at j).0 in
      cc (ap (λ m. lex_order (keyword_at m).0 (keyword_at j).0) e)
  | inr (inr p) ↦
      let g = lex_order_asymm (keyword_at j).0 (keyword_at i).0 (keyword_at-lt j i p r) in cc
]

gt_of_lex_order :
    (i j : ℕ)
    → j < keyword_count
    → lex_order (keyword_at i).0 (keyword_at j).0 ≡ Ordering.gt
    → j < i
gt_of_lex_order i j r l = elim (trichotomy i j) [
  | inl p ↦ let g = keyword_at-lt i j p r in cc
  | inr (inl e) ↦
      let k = lex_order_self (keyword_at j).0 in
      cc (ap (λ m. lex_order (keyword_at m).0 (keyword_at j).0) e)
  | inr (inr p) ↦ p
]

module _ (w : Bytes) (nz : HasNoZero w) where
  order : (mid : ℕ) → compare_word w (keyword_at mid).0 ≡ lex_order w (keyword_at mid).0
  order mid = compare_word-lex_order w (keyword_at mid).0 nz (keyword_at-HasNoZero mid)

  -- A word that is less than the one in the middle stands before it.
  less-InRange :
      (lo end mid : ℕ)
      → InRange w lo end
      → lex_order w (keyword_at mid).0 ≡ Ordering.lt
      → InRange w lo mid
  less-InRange lo end mid h l i r e =
      ((h i r e).0, lt_of_lex_order i mid r (ap (λ v. lex_order v (keyword_at mid).0) e ∙ l))

  greater-InRange :
      (lo end mid : ℕ)
      → mid < keyword_count
      → InRange w lo end
      → lex_order w (keyword_at mid).0 ≡ Ordering.gt
      → InRange w (mid + 1) end
  greater-InRange lo end mid m h l i r e = (
    omega (arith, gt_of_lex_order i mid m (ap (λ v. lex_order v (keyword_at mid).0) e ∙ l)),
    (h i r e).1,
  )

  search_keyword-IsKindOf :
      (fuel lo end : ℕ)
      → end ≤ keyword_count
      → end - lo < fuel
      → InRange w lo end
      → IsKindOf w (search_keyword fuel w lo end)
  unfolding search_keyword
  search_keyword-IsKindOf zero lo end b f h = absurd (omega arith)
  search_keyword-IsKindOf (suc fuel) lo end b f h =
      let mid = (lo + (end - 1)) / 2 in
      if_cases (IsKindOf w) (ltb lo end) {no = tok_ident}
        (λ t.
          let room : lo < end = ltb→lt lo end t in
          elim (Ordering-cases (lex_order w (keyword_at mid).0)) [
            | inl l ↦
                rw (order mid, l)
                  (search_keyword-IsKindOf fuel lo mid (omega arith) (omega arith)
                    (less-InRange lo end mid h l))
            | inr (inl e) ↦
                rw (order mid, e)
                  (inl (mid, omega arith, sym (eq_of_lex_order w (keyword_at mid).0 e), refl))
            | inr (inr g) ↦
                rw (order mid, g)
                  (search_keyword-IsKindOf fuel (mid + 1) end b (omega arith)
                    (greater-InRange lo end mid (omega arith) h g))
          ])
        (λ t. inr (refl, λ i r e. absurd (omega (arith, h i r e, leb_of_ltb lo end t))))

-- The kind that `lexLookupKeyword` returns for a text with no zero byte: that of the word in the
-- table, if it is there, and an identifier's otherwise.
pub lex_lookup_keyword-IsKindOf : (w : Bytes) → HasNoZero w → IsKindOf w (lex_lookup_keyword w)
unfolding lex_lookup_keyword
lex_lookup_keyword-IsKindOf w nz =
    search_keyword-IsKindOf w nz (keyword_count + 1) 0 keyword_count (omega arith) (omega arith)
      (λ i r e. (omega arith, r))
