-- ===== src/Endpoints/Weights.antt =====
-- The choice of an endpoint, read as a list in which each template stands as often as it weighs.
use crankfire.Prelude.{
  get_elem?-append, length-replicate, get_elem?-some, ℕ, zero, suc, ◌+◌, ◌-◌, ◌^◌, ◌≤◌, ◌<◌, ◌≡◌,
  refl, sym, ap, ◌∙◌, subst, inl, inr, false, Option, none, some, List, [], ◌∷◌, ◌++◌, arith,
  Bool-cases, length, get_elem?, replicate, length-append, All, nat_eq, string_eq,
}
use crankfire.Prelude.Int.{ℤ, pos, negsuc, pos_part, ◌≤ℤ◌, ltb_ℤ, leb_ℤ}
use crankfire.Prelude.Int64.{add64, add64-pos}
use crankfire.Endpoints.{
  EndpointTemplate, EndpointSelector, Selected, selector, add_endpoints, new_endpoint_selector,
  find_template, or_last, pick_template,
}

get_elem?-replicate {ℓ} :
    {A : Type ℓ} (k : ℕ) (a : A) (n : ℕ) → n < k → get_elem? (replicate k a) n ≡ some a
get_elem?-replicate zero a n h = absurd (omega arith)
get_elem?-replicate (suc k) a zero h = refl
get_elem?-replicate (suc k) a (suc n) h = get_elem?-replicate k a n (omega arith)

whole : (a : ℤ) → pos 1 ≤ℤ a → a ≡ pos (pos_part a)
whole (pos n) h = refl
whole (negsuc n) h = absurd (omega arith)

module _ {T : Type 0} where
  abbrev pub weight_of : EndpointTemplate T → ℕ
  weight_of t = pos_part t.weight

  -- Each template as often as its weight says, in order.
  abbrev pub spread : List (EndpointTemplate T) → List (EndpointTemplate T)
  spread [] = []
  spread (t ∷ ts) = replicate (weight_of t) t ++ spread ts

  abbrev pub total_of : List (EndpointTemplate T) → ℕ
  total_of [] = 0
  total_of (t ∷ ts) = weight_of t + total_of ts

  length-spread : (ts : List (EndpointTemplate T)) → length (spread ts) ≡ total_of ts
  length-spread [] = refl
  length-spread (t ∷ ts) =
      length-append (replicate (weight_of t) t) (spread ts)
      ∙ omega (arith, length-replicate (weight_of t) t, length-spread ts)

  total_of-append :
      (ts us : List (EndpointTemplate T)) → total_of (ts ++ us) ≡ total_of ts + total_of us
  total_of-append [] us = omega arith
  total_of-append (t ∷ ts) us = omega (arith, total_of-append ts us)

  abbrev pub Weighted : List (EndpointTemplate T) → Type 0
  Weighted = All (λ t. pos 1 ≤ℤ t.weight)

  Weighted-append :
      (ts : List (EndpointTemplate T)) (t : EndpointTemplate T)
      → Weighted ts
      → pos 1 ≤ℤ t.weight
      → Weighted (ts ++ t ∷ [])
  Weighted-append [] t w h = (h, tt)
  Weighted-append (u ∷ ts) t w h = (w.0, Weighted-append ts t w.1 h)

  find_template-spread :
      (n c : ℕ) (ts : List (EndpointTemplate T))
      → Weighted ts
      → c ≤ n
      → c + total_of ts < 2 ^ 63
      → find_template (pos n) (pos c) ts ≡ get_elem? (spread ts) (n - c)
  unfolding find_template
  find_template-spread n c [] w h l = refl
  find_template-spread n c (t ∷ ts) w h l =
      let k = weight_of t in
      let e : t.weight ≡ pos k = whole t.weight w.0 in
      let sum : add64 (pos c) t.weight ≡ pos (c + k) =
        ap (add64 (pos c)) e ∙ add64-pos c k (omega arith) in
      let at = get_elem?-append (replicate k t) (spread ts) (n - c) in
      let len = length-replicate k t in
      elim (Bool-cases (ltb_ℤ (pos n) (pos (c + k)))) [
        | inl here ↦
            rw (sum, here)
              (sym (get_elem?-replicate k t (n - c) (ground (arith, here)))
                ∙ ground (arith, at, len, here))
        | inr later ↦
            rw (sum, later)
              (find_template-spread n (c + k) ts w.1 (ground (arith, later)) (omega arith)
                ∙ ground (arith, at, len, later))
      ]

  -- What the templates of the endpoints weigh together.
  abbrev pub built_weight : List (Option (EndpointTemplate T)) → ℕ
  built_weight [] = 0
  built_weight (none ∷ bs) = built_weight bs
  built_weight (some t ∷ bs) = weight_of t + built_weight bs

  abbrev IsSelector : EndpointSelector T → Type 0
  IsSelector s =
      Weighted s.templates
      × (s.total_weight ≡ pos (total_of s.templates))
      × (0 < total_of s.templates)

  finished :
      (total : ℕ) (acc : List (EndpointTemplate T)) (s : EndpointSelector T)
      → Weighted acc
      → total ≡ total_of acc
      → total + 0 < 2 ^ 63
      → leb_ℤ (pos total) (pos 0) ≡ false
      → ◌≡◌ {A = Selected T}
          (selector (record { templates = acc; total_weight = pos total }))
          (selector s)
      → IsSelector s × (total_of s.templates < 2 ^ 63)
  finished total acc s w t l good h =
      let e : ◌≡◌ {A = EndpointSelector T} (record { templates = acc; total_weight = pos total })
          s =
        ground (arith, h) in
      subst (λ (x : EndpointSelector T). IsSelector x × (total_of x.templates < 2 ^ 63)) e
        ((w, ap pos t, ground (arith, good, t)), omega arith)

  add_endpoints-IsSelector :
      (bs : List (Option (EndpointTemplate T))) (total : ℕ) (acc : List (EndpointTemplate T))
      (s : EndpointSelector T)
      → Weighted acc
      → total ≡ total_of acc
      → total + built_weight bs < 2 ^ 63
      → add_endpoints bs (pos total) acc ≡ selector s
      → IsSelector s × (total_of s.templates < 2 ^ 63)
  unfolding add_endpoints
  add_endpoints-IsSelector [] total acc s w t l h = elim (Bool-cases (leb_ℤ (pos total) (pos 0))) [
    | inl bad ↦ ground (arith, h, bad)
    | inr good ↦ finished total acc s w t l good (rw good at h)
  ]
  add_endpoints-IsSelector (none ∷ bs) total acc s w t l h = ground arith
  add_endpoints-IsSelector (some u ∷ bs) total acc s w t l h =
      elim (Bool-cases (leb_ℤ u.weight (pos 0))) [
        | inl bad ↦ ground (arith, h, bad)
        | inr good ↦
            let e : u.weight ≡ pos (weight_of u) = whole u.weight (ground (arith, good)) in
            let sum : add64 (pos total) u.weight ≡ pos (total + weight_of u) =
              ap (add64 (pos total)) e ∙ add64-pos total (weight_of u) (omega arith) in
            add_endpoints-IsSelector bs (total + weight_of u) (acc ++ u ∷ []) s
              (Weighted-append acc u w (ground (arith, good)))
              (omega (arith, total_of-append acc (u ∷ []))) (omega arith) (rw (good, sum) at h)
      ]

  -- The end of the list is not reached by a draw below the total.
  found_in_spread :
      (t : EndpointTemplate T) (ts : List (EndpointTemplate T)) (n : ℕ)
      (o : Option (EndpointTemplate T))
      → o ≡ get_elem? (spread (t ∷ ts)) n
      → n < length (spread (t ∷ ts))
      → some (or_last t ts o) ≡ get_elem? (spread (t ∷ ts)) n
  found_in_spread t ts n none e h = absurd (get_elem?-some (spread (t ∷ ts)) n h (sym e))
  found_in_spread t ts n (some u) e h = e

  picked :
      (ts : List (EndpointTemplate T)) (n : ℕ)
      → Weighted ts
      → total_of ts < 2 ^ 63
      → n < length (spread ts)
      → pick_template (record { templates = ts; total_weight = pos (total_of ts) }) (λ _. pos n)
        ≡ get_elem? (spread ts) n
  unfolding pick_template
  picked [] n w l h = absurd (omega arith)
  picked (t ∷ ts) n w l h =
      let some_weight : leb_ℤ (pos (total_of (t ∷ ts))) (pos 0) ≡ false =
        ground (arith, length-spread (t ∷ ts), h) in
      rw some_weight (
        found_in_spread t ts n (find_template (pos n) (pos 0) (t ∷ ts))
          (find_template-spread n 0 (t ∷ ts) w (omega arith) (omega arith)
            ∙ ap (get_elem? (spread (t ∷ ts))) no_less)
          h)
    where
      no_less : n - 0 ≡ n
      no_less = omega arith

  -- Where `newEndpointSelector` gives a selector, and the weights of the templates together stay below
  -- 2^63, the total weight is positive, and each template is picked by exactly as many of the draws
  -- below the total as its weight says: those of the templates, one after another.
  pub pick_template-spread :
      (bs : List (Option (EndpointTemplate T))) (s : EndpointSelector T) (n : ℕ)
      → built_weight bs < 2 ^ 63
      → new_endpoint_selector bs ≡ selector s
      → (s.total_weight ≡ pos (length (spread s.templates)))
        × (0 < length (spread s.templates))
        × (n < length (spread s.templates)
            → pick_template s (λ _. pos n) ≡ get_elem? (spread s.templates) n)
  unfolding new_endpoint_selector
  pick_template-spread [] s n l h = ground (arith, h)
  pick_template-spread (b ∷ bs) s n l h =
      let v = add_endpoints-IsSelector (b ∷ bs) 0 [] s tt refl (omega arith) h in
      let len = length-spread s.templates in
      (
        v.0.1 ∙ ap pos (sym len),
        omega (arith, len, v.0.2),
        λ d.
            ap
              (λ (t : ℤ).
                pick_template (record { templates = s.templates; total_weight = t }) (λ _. pos n))
              v.0.1
            ∙ picked s.templates n v.0.0 v.1 d,
      )
