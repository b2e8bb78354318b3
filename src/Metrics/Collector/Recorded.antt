-- ===== src/Metrics/Collector/Recorded.antt =====
-- The shards of a collector, in total and of each endpoint, hold the requests that were recorded.
use crankfire.Prelude.{
  ℕ, ◌<◌, String, ◌≡◌, refl, sym, ap, ◌∙◌, subst, ◌≢◌, ◌⊎◌, inl, inr, Bool, true, false, none, some,
  List, [], ◌∷◌, ◌++◌, arith, if◌then◌else◌, Bool-cases, length, All, ◌==◌, nat_eq, string_eq,
  Float64,
}
use crankfire.Prelude.Maps.{lookup, value_or, lookup-insert}
use mathlib.Core.List.{Permᴰ, append-nil}
use mathlib.Core.List.Permᴰ
use text.Mathlib.TextEquality.{eq_iff}
use crankfire.Metrics.{Histogram, Request}
use crankfire.Metrics.Bucket.{StatsBucket}
use crankfire.Metrics.Bucket.Measures.{length-perm}
use crankfire.Metrics.Bucket.Counts.{IsCountable}
use crankfire.Metrics.Shards.{new_sharded_stats, record_sharded}
use crankfire.Metrics.Shards.Pooled.{
  Hold, Hold-perm, IsCountable-perm, IsCountable-append, new_sharded_stats-Hold,
  length-new_sharded_stats, record_sharded-Hold, length-record_sharded,
}
use crankfire.Metrics.Collector.{
  Collector, Recording, metadata, request_of, record_endpoint, record_request,
}

empty_of_length : (rs : List Request) → length rs ≡ 0 → rs ≡ []
empty_of_length [] e = refl
empty_of_length (r ∷ rs) e = ground arith

pub with_nil : (P : List Request → Type 0) {rs : List Request} → P rs → P (rs ++ [])
with_nil P {rs} p = subst P (sym (append-nil rs)) p

pub without_nil : (P : List Request → Type 0) {rs : List Request} → P (rs ++ []) → P rs
without_nil P {rs} p = subst P (append-nil rs) p

module _ (Hist : Histogram) (R : Float64) (V : Type 0) where
  open Hist use {H}
  open R use {F}

  abbrev pub Recordings : Type 0
  Recordings = List (Recording F V)

  unfoldable pub record_requests : Recordings → Collector H F V → Collector H F V
  record_requests [] c = c
  record_requests (k ∷ ks) c = record_requests ks (record_request Hist R V k c)

  abbrev pub requests_of : Recordings → List Request
  requests_of [] = []
  requests_of (k ∷ ks) = request_of Hist R V k ∷ requests_of ks

  abbrev pub is_on : String → Recording F V → Bool
  is_on name k = (metadata Hist R V k).endpoint == name

  abbrev pub requests_on : String → Recordings → List Request
  requests_on name [] = []
  requests_on name (k ∷ ks) =
      if is_on name k then request_of Hist R V k ∷ requests_on name ks else requests_on name ks

  -- `rand.Intn(numShards)`.
  abbrev pub IsDrawn : Recording F V → Type 0
  IsDrawn k = (k.shard < 32) × (k.endpoint_shard < 32)

  -- All shards there are, holding these requests.
  unfoldable pub IsHolding : List Request → List (StatsBucket H) → Type 0
  IsHolding rs shards = Hold Hist shards rs × (length shards ≡ 32)

  pub fresh-IsHolding : IsHolding [] (new_sharded_stats Hist)
  unfolding IsHolding
  fresh-IsHolding = (new_sharded_stats-Hold Hist, length-new_sharded_stats Hist)

  record_sharded-IsHolding :
      (i : ℕ) (r : Request) (rs : List Request) (shards : List (StatsBucket H))
      → i < 32
      → IsCountable (r ∷ rs)
      → IsHolding rs shards
      → IsHolding (r ∷ rs) (record_sharded Hist i r shards)
  unfolding IsHolding
  record_sharded-IsHolding i r rs shards l c w = (
    record_sharded-Hold Hist i r rs shards (omega (arith, w.1)) c w.0,
    length-record_sharded Hist i r shards ∙ w.1,
  )

  -- An endpoint is known once a request was recorded on it.
  unfoldable pub EndpointHolds : String → List Request → Collector H F V → Type 0
  EndpointHolds name rs c =
      ((rs ≡ []) × (lookup name c.endpoints ≡ none))
      ⊎ ((shards : List (StatsBucket H)) × (lookup name c.endpoints ≡ some shards)
          × IsHolding rs shards)

  lookup-record_request :
      (k : Recording F V) (name : String) (c : Collector H F V)
      → name ≢ ""
      → let shards = value_or (new_sharded_stats Hist) (lookup name c.endpoints) in
        lookup name (record_request Hist R V k c).endpoints ≡ (
          if is_on name k
          then some (record_sharded Hist k.endpoint_shard (request_of Hist R V k) shards)
          else lookup name c.endpoints)
  unfolding record_request record_endpoint
  lookup-record_request k name c n =
      let endpoint = (metadata Hist R V k).endpoint in
      let shards = value_or (new_sharded_stats Hist) (lookup endpoint c.endpoints) in
      let added = record_sharded Hist k.endpoint_shard (request_of Hist R V k) shards in
      ground (
        arith,
        lookup-insert endpoint name added c.endpoints,
        eq_iff endpoint name,
        eq_iff endpoint "",
        n,
      )

  record_request-EndpointHolds :
      (k : Recording F V) (name : String) (rs : List Request) (c : Collector H F V)
      → k.endpoint_shard < 32
      → name ≢ ""
      → is_on name k ≡ true
      → IsCountable (request_of Hist R V k ∷ rs)
      → EndpointHolds name rs c
      → EndpointHolds name (request_of Hist R V k ∷ rs) (record_request Hist R V k c)
  unfolding EndpointHolds
  record_request-EndpointHolds k name rs c l n hit fit (inl (none_yet, absent)) =
      let r = request_of Hist R V k in
      let shards = record_sharded Hist k.endpoint_shard r (new_sharded_stats Hist) in
      let held = record_sharded-IsHolding k.endpoint_shard r [] (new_sharded_stats Hist) l in
      inr (
        shards,
        ground (arith, lookup-record_request k name c n, hit, absent),
        subst (λ l. IsHolding (r ∷ l) shards) (sym none_yet)
            (held (subst (λ l. IsCountable (r ∷ l)) none_yet fit) fresh-IsHolding),
      )
  record_request-EndpointHolds k name rs c l n hit fit (inr (shards, found, held)) =
      let r = request_of Hist R V k in
      inr (
        record_sharded Hist k.endpoint_shard r shards,
        ground (arith, lookup-record_request k name c n, hit, found),
        record_sharded-IsHolding k.endpoint_shard r rs shards l fit held,
      )

  other-EndpointHolds :
      (k : Recording F V) (name : String) (rs : List Request) (c : Collector H F V)
      → name ≢ ""
      → is_on name k ≡ false
      → EndpointHolds name rs c
      → EndpointHolds name rs (record_request Hist R V k c)
  unfolding EndpointHolds
  other-EndpointHolds k name rs c n miss w =
      let same : lookup name (record_request Hist R V k c).endpoints ≡ lookup name c.endpoints =
        ground (arith, lookup-record_request k name c n, miss) in
      elim w [
        | inl (none_yet, absent) ↦ inl (none_yet, same ∙ absent)
        | inr (shards, found, held) ↦ inr (shards, same ∙ found, held)
      ]

  IsHolding-perm :
      {rs rs' : List Request} (shards : List (StatsBucket H))
      → Permᴰ rs rs'
      → IsHolding rs shards
      → IsHolding rs' shards
  unfolding IsHolding
  IsHolding-perm shards p (h, l) = (Hold-perm Hist shards p h, l)

  EndpointHolds-perm :
      {rs rs' : List Request} (name : String) (c : Collector H F V)
      → Permᴰ rs rs'
      → EndpointHolds name rs c
      → EndpointHolds name rs' c
  unfolding EndpointHolds
  EndpointHolds-perm {rs} {rs'} name c p (inl (none_yet, absent)) =
      inl (empty_of_length rs' (sym (length-perm p) ∙ ap length none_yet), absent)
  EndpointHolds-perm name c p (inr (shards, found, held)) =
      inr (shards, found, IsHolding-perm shards p held)

  pub record_requests-total :
      (ks : Recordings) (rs : List Request) (c : Collector H F V)
      → All IsDrawn ks
      → IsCountable (requests_of ks ++ rs)
      → IsHolding rs c.total
      → IsHolding (requests_of ks ++ rs) (record_requests ks c).total
  unfolding record_requests record_request
  record_requests-total [] rs c d fit w = w
  record_requests-total (k ∷ ks) rs c d fit w =
      let r = request_of Hist R V k in
      let order = Permᴰ.middle r (requests_of ks) rs in
      let later_fit = IsCountable-perm (Permᴰ.symm order) fit in
      let this_fits = (IsCountable-append (requests_of ks) (r ∷ rs) later_fit).1 in
      let held = record_sharded-IsHolding k.shard r rs c.total d.0.0 this_fits w in
      let rest =
        record_requests-total ks (r ∷ rs) (record_request Hist R V k c) d.1 later_fit held in
      IsHolding-perm (record_requests (k ∷ ks) c).total order rest

  pub record_requests-EndpointHolds :
      (ks : Recordings) (name : String) (rs : List Request) (c : Collector H F V)
      → name ≢ ""
      → All IsDrawn ks
      → IsCountable (requests_on name ks ++ rs)
      → EndpointHolds name rs c
      → EndpointHolds name (requests_on name ks ++ rs) (record_requests ks c)
  unfolding record_requests
  record_requests-EndpointHolds [] name rs c n d fit w = w
  record_requests-EndpointHolds (k ∷ ks) name rs c n d fit w =
      let r = request_of Hist R V k in
      let next = record_request Hist R V k c in
      let end = record_requests ks next in
      elim (Bool-cases (is_on name k)) [
        | inl hit ↦
            let here : requests_on name (k ∷ ks) ≡ r ∷ requests_on name ks = rw (hit) refl in
            let order = Permᴰ.middle r (requests_on name ks) rs in
            let all_fit = subst (λ l. IsCountable (l ++ rs)) here fit in
            let later_fit = IsCountable-perm (Permᴰ.symm order) all_fit in
            let this_fits = (IsCountable-append (requests_on name ks) (r ∷ rs) later_fit).1 in
            let held = record_request-EndpointHolds k name rs c d.0.1 n hit this_fits w in
            let rest = record_requests-EndpointHolds ks name (r ∷ rs) next n d.1 later_fit held in
            subst (λ l. EndpointHolds name (l ++ rs) end) (sym here)
              (EndpointHolds-perm name end order rest)
        | inr miss ↦
            let here : requests_on name (k ∷ ks) ≡ requests_on name ks = rw (miss) refl in
            let later_fit = subst (λ l. IsCountable (l ++ rs)) here fit in
            let held = other-EndpointHolds k name rs c n miss w in
            let rest = record_requests-EndpointHolds ks name rs next n d.1 later_fit held in
            subst (λ l. EndpointHolds name (l ++ rs) end) (sym here) rest
      ]
