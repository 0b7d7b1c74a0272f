-- ===== src/Fido/Routes/Best.antt =====
-- internal/fido/routes.go: `MatchRoute` takes the first of the most specific routes that match.
use virt_bbs.Prelude.{
  ◌≡◌, refl, sym, ap, subst, ◌∙◌, ℕ, suc, ◌≤◌, ◌<◌, Option, none, some, List, [], ◌∷◌, ◌++◌, Bytes,
  All, All-append, append_assoc, append-nil, if◌then◌else◌, Bool-cases, inl, inr, ltb, arith,
}
use virt_bbs.Prelude.Int.{pos, negsuc}
use virt_bbs.Fido.Address.{Addr}
use virt_bbs.Fido.Routes.{
  Route, Choice, pattern_specificity, pattern_matches, consider, consider_all, match_route,
}

All-mono :
    {A : Type 0} (P Q : A → Type 0) (xs : List A) → ((x : A) → P x → Q x) → All P xs → All Q xs
All-mono P Q [] f h = tt
All-mono P Q (x ∷ xs) f (hx, hs) = (f x hx, All-mono P Q xs f hs)

-- The state of the loop at its best route so far.
abbrev chosen : Option Route → Choice
chosen none = record { best = none; best_score = negsuc 0 }
chosen (some r) = record { best = some r; best_score = pos (pattern_specificity r.pattern) }

module _ (trim_space : Bytes → Bytes) (dest : Addr) where
  -- 0 for a route that does not match, and above it the specificity.
  abbrev pub rank : Route → ℕ
  rank r =
      if pattern_matches trim_space r.pattern dest then suc (pattern_specificity r.pattern) else 0

  -- No route matches; or the route matches, those before it rank lower, and those behind no higher.
  abbrev pub IsBest : List Route → Option Route → Type 0
  IsBest routes none = All (λ s. rank s ≡ 0) routes
  IsBest routes (some r) =
      (front : List Route) × (back : List Route) × (routes ≡ front ++ (r ∷ back))
      × (0 < rank r)
      × All (λ s. rank s < rank r) front
      × All (λ s. rank s ≤ rank r) back

  consider-none :
      (r : Route)
      → rank r ≡ 0
      → consider trim_space dest r (record { best = none; best_score = negsuc 0 })
        ≡ record { best = none; best_score = negsuc 0 }
  unfolding consider
  consider-none r h = ground (arith, h)

  consider-first :
      (r : Route)
      → 0 < rank r
      → consider trim_space dest r (record { best = none; best_score = negsuc 0 })
        ≡ record { best = some r; best_score = pos (pattern_specificity r.pattern) }
  unfolding consider
  consider-first r h = ground (arith, h)

  consider-lower :
      (b r : Route)
      → 0 < rank b
      → rank r ≤ rank b
      → consider trim_space dest r
          (record { best = some b; best_score = pos (pattern_specificity b.pattern) })
        ≡ record { best = some b; best_score = pos (pattern_specificity b.pattern) }
  unfolding consider
  consider-lower b r hb h = ground (arith, hb, h)

  consider-higher :
      (b r : Route)
      → 0 < rank b
      → rank b < rank r
      → consider trim_space dest r
          (record { best = some b; best_score = pos (pattern_specificity b.pattern) })
        ≡ record { best = some r; best_score = pos (pattern_specificity r.pattern) }
  unfolding consider
  consider-higher b r hb h = ground (arith, hb, h)

  -- All routes up to the best rank at most as it does.
  passed-le :
      (passed front back : List Route) (b : Route)
      → passed ≡ front ++ (b ∷ back)
      → All (λ s. rank s < rank b) front
      → All (λ s. rank s ≤ rank b) back
      → All (λ s. rank s ≤ rank b) passed
  passed-le passed front back b e hf hb = subst (All (λ s. rank s ≤ rank b)) (sym e) (
      All-append (λ s. rank s ≤ rank b) front (b ∷ back)
        (All-mono (λ s. rank s < rank b) (λ s. rank s ≤ rank b) front (λ s h. omega (arith, h)) hf)
        (omega arith, hb))

  consider-IsBest :
      (passed : List Route) (o : Option Route) (r : Route)
      → IsBest passed o
      → (o1 : Option Route) × (consider trim_space dest r (chosen o) ≡ chosen o1)
        × IsBest (passed ++ (r ∷ [])) o1
  consider-IsBest passed none r h = elim (Bool-cases (ltb 0 (rank r))) [
    | inl e ↦ (
      some r,
      consider-first r (ground (arith, e)),
      (
        passed,
        [],
        refl,
        ground (arith, e),
        All-mono (λ s. rank s ≡ 0) (λ s. rank s < rank r) passed (λ s h1. ground (arith, h1, e)) h,
        tt,
      ),
    )
    | inr e ↦ (
      none,
      consider-none r (ground (arith, e)),
      All-append (λ s. rank s ≡ 0) passed (r ∷ []) h (ground (arith, e), tt),
    )
  ]
  consider-IsBest passed (some b) r (front, back, split, matches, before, behind) =
      elim (Bool-cases (ltb (rank b) (rank r))) [
        | inl e ↦ (
          some r,
          consider-higher b r matches (ground (arith, e)),
          (
            passed,
            [],
            refl,
            ground (arith, e, matches),
            All-mono (λ s. rank s ≤ rank b) (λ s. rank s < rank r) passed
                (λ s h1. ground (arith, h1, e)) (passed-le passed front back b split before behind),
            tt,
          ),
        )
        | inr e ↦ (
          some b,
          consider-lower b r matches (ground (arith, e)),
          (
            front,
            back ++ (r ∷ []),
            ap (λ l. l ++ (r ∷ [])) split ∙ append_assoc front (b ∷ back) (r ∷ []),
            matches,
            before,
            All-append (λ s. rank s ≤ rank b) back (r ∷ []) behind (ground (arith, e), tt),
          ),
        )
      ]

  consider_all-IsBest :
      (routes passed : List Route) (o : Option Route)
      → IsBest passed o
      → IsBest (passed ++ routes) (consider_all trim_space dest routes (chosen o)).best
  unfolding consider_all
  consider_all-IsBest [] passed none h = subst (λ l. IsBest l none) (sym (append-nil passed)) h
  consider_all-IsBest [] passed (some b) h =
      subst (λ l. IsBest l (some b)) (sym (append-nil passed)) h
  consider_all-IsBest (r ∷ routes) passed o h =
      let (o1, e, h1) = consider-IsBest passed o r h in
      subst (λ c. IsBest (passed ++ (r ∷ routes)) (consider_all trim_space dest routes c).best)
        (sym e)
        (subst (λ l. IsBest l (consider_all trim_space dest routes (chosen o1)).best)
          (append_assoc passed (r ∷ []) routes)
          (consider_all-IsBest routes (passed ++ (r ∷ [])) o1 h1))

  -- The route that is chosen matches the destination, no route in front of it that matches is as
  -- specific, and none behind it is more so; where none is chosen, none matches.
  pub match_route-IsBest :
      (routes : List Route) → IsBest routes (match_route trim_space routes dest)
  unfolding match_route
  match_route-IsBest routes = consider_all-IsBest routes [] none tt
