-- ===== src/DbStat/Rows/Spans.antt =====
-- 29_dbstat/main.c: the minimum and the maximum of process_rows.
use otus_c_prog.Common.{
  ◌≡◌, refl, ◌⊎◌, inl, inr, Bool, true, false, if◌then◌else◌, List, [], ◌∷◌, Option, none, some,
  arith,
}
use otus_c_prog.DbStat.Rows.{Double, IsOrdered, widen}

module _ {ℓ} {W : Type 0} where
  abbrev pub All : (W → Type ℓ) → List W → Type ℓ
  All P [] = Unit
  All P (x ∷ xs) = P x × All P xs

module _ {W : Type 0} where
  abbrev pub Among : W → List W → Type 0
  Among a [] = ⊥
  Among a (x ∷ xs) = (a ≡ x) ⊎ Among a xs

  -- The items of a list before those already seen, the last one first.
  seen : List W → List W → List W
  seen [] ys = ys
  seen (x ∷ xs) ys = seen xs (x ∷ ys)

  All-seen : (P : W → Type 0) (xs ys : List W) → All P (seen xs ys) → All P xs × All P ys
  unfolding seen
  All-seen P [] ys h = (tt, h)
  All-seen P (x ∷ xs) ys h = let r = All-seen P xs (x ∷ ys) h in ((r.1.0, r.0), r.1.1)

  Among-seen : (a : W) (xs ys : List W) → Among a (seen xs ys) → Among a xs ⊎ Among a ys
  unfolding seen
  Among-seen a [] ys h = inr h
  Among-seen a (x ∷ xs) ys h = ground (arith, Among-seen a xs (x ∷ ys) h)

module _ {W : Type 0} (d : Double W) where
  -- `low` and `high` are among the numbers, of which none is below the one or above the other.
  pub record Spans (low high : W) (xs : List W) : Type 0 where
    pub low_among : Among low xs
    pub high_among : Among high xs
    pub none_below : All (λ x. d.lt x low ≡ false) xs
    pub none_above : All (λ x. d.lt high x ≡ false) xs

module _ {W : Type 0} (d : Double W) where
  unfoldable pub widen_all : Option (W × W) → List W → Option (W × W)
  widen_all e [] = e
  widen_all e (x ∷ xs) = widen_all (widen d e x) xs

module _ {W : Type 0} (d : Double W) (o : IsOrdered d) where
  -- A bound that is replaced by a number below it stays below all that it was below.
  none_below-lower :
      (low x : W) (ys : List W)
      → d.lt x low ≡ true
      → All (λ y. d.lt y low ≡ false) ys
      → All (λ y. d.lt y x ≡ false) ys
  none_below-lower low x [] h a = tt
  none_below-lower low x (y ∷ ys) h a =
      (ground (arith, o.lt_trans y x low), none_below-lower low x ys h a.1)

  none_above-higher :
      (high x : W) (ys : List W)
      → d.lt high x ≡ true
      → All (λ y. d.lt high y ≡ false) ys
      → All (λ y. d.lt x y ≡ false) ys
  none_above-higher high x [] h a = tt
  none_above-higher high x (y ∷ ys) h a =
      (ground (arith, o.lt_trans high x y), none_above-higher high x ys h a.1)

  Spans-one : (x : W) → Spans d x x (x ∷ [])
  Spans-one x = record {
    low_among = inl refl;
    high_among = inl refl;
    none_below = (o.lt_irrefl x, tt);
    none_above = (o.lt_irrefl x, tt);
  }

  lower-Spans :
      (low high x : W) (ys : List W)
      → Spans d low high ys
      → (b : Bool) → d.lt x low ≡ b
      → Among (if b then x else low) (x ∷ ys)
        × All (λ y. d.lt y (if b then x else low) ≡ false) (x ∷ ys)
  lower-Spans low high x ys s true h =
      (inl refl, (o.lt_irrefl x, none_below-lower low x ys h s.none_below))
  lower-Spans low high x ys s false h = (inr s.low_among, (h, s.none_below))

  higher-Spans :
      (low high x : W) (ys : List W)
      → Spans d low high ys
      → (b : Bool) → d.lt high x ≡ b
      → Among (if b then x else high) (x ∷ ys)
        × All (λ y. d.lt (if b then x else high) y ≡ false) (x ∷ ys)
  higher-Spans low high x ys s true h =
      (inl refl, (o.lt_irrefl x, none_above-higher high x ys h s.none_above))
  higher-Spans low high x ys s false h = (inr s.high_among, (h, s.none_above))

  abbrev Spanned : Option (W × W) → List W → Type 0
  Spanned none ys = ⊥
  Spanned (some (low, high)) ys = Spans d low high ys

  widen_all-Spanned :
      (e : W × W) (xs ys : List W)
      → Spans d e.0 e.1 ys
      → Spanned (widen_all d (some e) xs) (seen xs ys)
  unfolding widen_all widen seen
  widen_all-Spanned (low, high) [] ys s = s
  widen_all-Spanned (low, high) (x ∷ xs) ys s =
      let l = lower-Spans low high x ys s (d.lt x low) refl in
      let h = higher-Spans low high x ys s (d.lt high x) refl in
      widen_all-Spanned (if d.lt x low then x else low, if d.lt high x then x else high) xs (x ∷ ys)
        (record { low_among = l.0; high_among = h.0; none_below = l.1; none_above = h.1 })

  seen-Among : (a x : W) (xs : List W) → Among a (seen xs (x ∷ [])) → Among a (x ∷ xs)
  seen-Among a x xs h = elim (Among-seen a xs (x ∷ []) h) [
    | inl later ↦ inr later
    | inr here ↦ elim here [ inl e ↦ inl e | inr none_left ↦ absurd none_left ]
  ]

  seen-All : (P : W → Type 0) (x : W) (xs : List W) → All P (seen xs (x ∷ [])) → All P (x ∷ xs)
  seen-All P x xs h = let r = All-seen P xs (x ∷ []) h in (r.1.0, r.0)

  seen-Spans :
      (low high x : W) (xs : List W)
      → Spans d low high (seen xs (x ∷ []))
      → Spans d low high (x ∷ xs)
  seen-Spans low high x xs s = record {
    low_among = seen-Among low x xs s.low_among;
    high_among = seen-Among high x xs s.high_among;
    none_below = seen-All (λ y. d.lt y low ≡ false) x xs s.none_below;
    none_above = seen-All (λ y. d.lt high y ≡ false) x xs s.none_above;
  }

  -- At least one number leaves a minimum and a maximum.
  pub widen_all-Spans :
      (x : W) (xs : List W)
      → (low : W) × (high : W) × (widen_all d none (x ∷ xs) ≡ some (low, high))
        × Spans d low high (x ∷ xs)
  unfolding widen_all widen
  widen_all-Spans x xs =
      go (widen_all d (some (x, x)) xs) (widen_all-Spanned (x, x) xs (x ∷ []) (Spans-one x))
    where
      go :
          (e : Option (W × W))
          → Spanned e (seen xs (x ∷ []))
          → (low : W) × (high : W) × (e ≡ some (low, high)) × Spans d low high (x ∷ xs)
      go none s = absurd s
      go (some (low, high)) s = (low, high, refl, seen-Spans low high x xs s)
