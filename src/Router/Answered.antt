-- ===== src/Router/Answered.antt =====
-- Proofs about tools/pwrdaemon/router: a request for values is answered once, by the sums over what the
-- sources of each object answered.
use mathlib.Core.Path.{subst}
use mathlib.Core.List.{append_assoc}
use pwrapi_ref.Prelude.{
  ℕ, suc, ◌^◌, ◌<◌, ◌≡◌, ◌≢◌, refl, sym, ap, ◌∙◌, arith, Bool, true, false, ◌&&◌, none, some, List,
  [], ◌∷◌, ◌++◌, Outcome, returns, ◌>>=◌, ◌==◌, ==_self, Bool-cases, inl, inr, length, get_elem?,
  replicate, length-append, get_elem?-set_self, get_elem?-lt, get_elem?-some, length-replicate, All,
}
use pwrapi_ref.Events.Responses.{CommRespEvent}
use pwrapi_ref.Events.Messages.{Message}
use pwrapi_ref.Router.{Router, Waiting}
use pwrapi_ref.Router.Answers.{CommReqInfo, collect}
use pwrapi_ref.Router.Events.{process_resp, store, answer}
use pwrapi_ref.Router.Counts.{open_groups, open_groups-pos, open_groups-zero}
use pwrapi_ref.Router.Sums.{HasRows, AllAdd, add_rows-total}
use pwrapi_ref.Router.Rounds.{
  of_group, of_group-own, of_group-All, Holds, Tallied, add_errors-rows, collect-still,
  collect-closed,
}
use pwrapi_ref.Router.Tally.{eq_cases, still, closes}

All-append :
    (P : CommRespEvent → Type 0) (xs ys : List CommRespEvent)
    → All P xs
    → All P ys
    → All P (xs ++ ys)
All-append P [] ys h h' = h'
All-append P (x ∷ xs) ys (hx, h) h' = (hx, All-append P xs ys h h')

of_group-append :
    (g : ℕ) (xs ys : List CommRespEvent) → of_group g (xs ++ ys) ≡ of_group g xs ++ of_group g ys
of_group-append g [] ys = refl
of_group-append g (x ∷ xs) ys = elim (Bool-cases (x.grp_index == g)) [
  | inl e ↦ rw (e, of_group-append g xs ys)
  | inr e ↦ rw (e, of_group-append g xs ys)
]

-- Each group of `sizes` has as many responses as it has to have.
abbrev pub Complete : List ℕ → List CommRespEvent → Type 0
Complete sizes rs = (g k : ℕ) → get_elem? sizes g ≡ some k → length (of_group g rs) ≡ k

-- A group that has one more response to come is open.
still_open :
    (sizes : List ℕ) (p : List CommRespEvent) (r : CommRespEvent) (rest : List CommRespEvent)
    (k : ℕ)
    → Complete sizes (p ++ r ∷ rest)
    → get_elem? sizes r.grp_index ≡ some k
    → length (of_group r.grp_index p) < k
still_open sizes p r rest k whole at_k = omega (
  arith,
  whole r.grp_index k at_k,
  ap length (of_group-append r.grp_index p (r ∷ rest)),
  length-append (of_group r.grp_index p) (of_group r.grp_index (r ∷ rest)),
  own,
)
  where
    own : length (of_group r.grp_index (r ∷ rest)) ≡ suc (length (of_group r.grp_index rest))
    own = rw (==_self r.grp_index)

-- The responses are processed one after the other.
abbrev pub process_all : (ℕ → ℕ → ℕ) → List CommRespEvent → Router → Outcome Router
process_all add [] r = returns r
process_all add (ev ∷ evs) r = process_resp add ev r >>= process_all add evs

-- A response that is for the request at `h` and one of its groups.
pub record IsFor (ops sizes : List ℕ) (h : ℕ) (r : CommRespEvent) : Type 0 where
  pub id : r.base.base.id ≡ h
  pub group : r.grp_index < length sizes
  pub rows : HasRows (length ops) r

module _ (add : ℕ → ℕ → ℕ) (ops sizes : List ℕ) (adds : AllAdd ops)
    (few : length sizes < 2 ^ 64) where
  -- One response of a group that is open; its process says that the request is done when it is.
  collect-Tallied :
      (p : List CommRespEvent) (info : CommReqInfo) (r : CommRespEvent) (k : ℕ)
      → Tallied add ops sizes p info
      → All (HasRows (length ops)) (p ++ r ∷ [])
      → get_elem? sizes r.grp_index ≡ some k
      → length (of_group r.grp_index p) < k
      → (info' : CommReqInfo) × (b : Bool) × (collect add info r ≡ returns (info', b))
        × Tallied add ops sizes (p ++ r ∷ []) info'
        × ((b && (info'.pending == 0)) ≡ (info'.pending == 0))
        × (info'.src ≡ info.src)
        × (info'.resp.base.base ≡ info.resp.base.base)
  collect-Tallied p info r k t rows at_k room =
      elim (eq_cases (length (of_group r.grp_index p ++ r ∷ [])) k) [
        | inr h ↦
            let now = still add ops sizes p info r t k at_k room h in
            (
              _,
              false,
              collect-still add info r (of_group r.grp_index p) k at_q at_size h,
              now,
              ground (
                arith,
                t.count,
                open_groups-pos sizes info.resp_q r.grp_index at_k at_q (omega arith),
              ),
              refl,
              refl,
            )
        | inl full ↦
            let zeros : List ℕ = replicate (length ops) 0 in
            let (xs, done, wide, each) =
              add_rows-total add ops zeros zeros (of_group r.grp_index p ++ r ∷ []) adds queue_rows
                (length-replicate (length ops) 0) in
            (
              _,
              true,
              collect-closed add info r (of_group r.grp_index p) k (xs, _) t.op at_q at_size full
                  (omega (arith, t.value_rows, mine)) (omega (arith, t.stamp_rows, mine))
                  (rw t.ops_kept done),
              closes add ops sizes p info r t k at_k room full few xs wide each,
              refl,
              refl,
              ap (λ c. c.base) (add_errors-rows add _ (of_group r.grp_index p ++ r ∷ [])).2,
            )
      ]
    where
      mine : r.grp_index < length sizes
      mine = get_elem?-lt sizes r.grp_index k at_k

      at_q : get_elem? info.resp_q r.grp_index ≡ some (of_group r.grp_index p)
      at_q = t.queues r.grp_index mine

      at_size : get_elem? info.grp_info r.grp_index ≡ some k
      at_size = ap (λ ks. get_elem? ks r.grp_index) t.sizes_kept ∙ at_k

      queue_rows : All (HasRows (length ops)) (of_group r.grp_index p ++ r ∷ [])
      queue_rows =
          subst (All (HasRows (length ops))) (of_group-own p r)
            (of_group-All (HasRows (length ops)) r.grp_index (p ++ r ∷ []) rows)

  -- What a client gets for its request: one answer, with its own event number, and the sums of each
  -- group over the responses `rs`.
  pub record Answers (h : ℕ) (info : CommReqInfo) (rs : List CommRespEvent) (rt rt' : Router)
      : Type 0 where
    pub resp : CommRespEvent
    pub sent : rt'.sent ≡ (info.src, Message.comm_resp resp) ∷ rt.sent
    pub gone : get_elem? rt'.infos h ≡ some none
    pub base : resp.base.base ≡ info.resp.base.base
    pub sums :
        (g k : ℕ) → get_elem? sizes g ≡ some k → Holds add (length ops) g (of_group g rs) resp

  process_resp-done_own :
      (info info' : CommReqInfo) (b : Bool) (r : CommRespEvent) (rt : Router)
      → get_elem? rt.infos r.base.base.id ≡ some (some (Waiting.on_values info))
      → collect add info r ≡ returns (info', b)
      → (b && (info'.pending == 0)) ≡ true
      → process_resp add r rt
        ≡ returns (answer rt r.base.base.id info'.src (Message.comm_resp info'.resp))
  unfolding process_resp
  process_resp-done_own info info' b r rt at_h c e = rw (at_h, c, e)

  process_resp-done :
      (h : ℕ) (info info' : CommReqInfo) (b : Bool) (r : CommRespEvent) (rt : Router)
      → r.base.base.id ≡ h
      → get_elem? rt.infos h ≡ some (some (Waiting.on_values info))
      → collect add info r ≡ returns (info', b)
      → (b && (info'.pending == 0)) ≡ true
      → process_resp add r rt ≡ returns (answer rt h info'.src (Message.comm_resp info'.resp))
  process_resp-done h info info' b r rt id at_h c e =
      process_resp-done_own info info' b r rt (ap (get_elem? rt.infos) id ∙ at_h) c e
      ∙ ap (λ i. returns (answer rt i info'.src (Message.comm_resp info'.resp))) id

  process_resp-more_own :
      (info info' : CommReqInfo) (b : Bool) (r : CommRespEvent) (rt : Router)
      → get_elem? rt.infos r.base.base.id ≡ some (some (Waiting.on_values info))
      → collect add info r ≡ returns (info', b)
      → (b && (info'.pending == 0)) ≡ false
      → process_resp add r rt ≡ returns (store rt r.base.base.id (some (Waiting.on_values info')))
  unfolding process_resp
  process_resp-more_own info info' b r rt at_h c e = rw (at_h, c, e)

  process_resp-more :
      (h : ℕ) (info info' : CommReqInfo) (b : Bool) (r : CommRespEvent) (rt : Router)
      → r.base.base.id ≡ h
      → get_elem? rt.infos h ≡ some (some (Waiting.on_values info))
      → collect add info r ≡ returns (info', b)
      → (b && (info'.pending == 0)) ≡ false
      → process_resp add r rt ≡ returns (store rt h (some (Waiting.on_values info')))
  process_resp-more h info info' b r rt id at_h c e =
      process_resp-more_own info info' b r rt (ap (get_elem? rt.infos) id ∙ at_h) c e
      ∙ ap (λ i. returns (store rt i (some (Waiting.on_values info')))) id

  rows_of :
      (h : ℕ) (rs : List CommRespEvent) → All (IsFor ops sizes h) rs → All (HasRows (length ops)) rs
  rows_of h [] v = tt
  rows_of h (r ∷ rs) (v, vs) = (v.rows, rows_of h rs vs)

  pub process_all-rest :
      (h : ℕ) (p : List CommRespEvent) (r : CommRespEvent) (rest : List CommRespEvent)
      (info : CommReqInfo) (rt : Router)
      → Tallied add ops sizes p info
      → get_elem? rt.infos h ≡ some (some (Waiting.on_values info))
      → All (HasRows (length ops)) p
      → All (IsFor ops sizes h) (r ∷ rest)
      → Complete sizes (p ++ r ∷ rest)
      → (rt' : Router) × (process_all add (r ∷ rest) rt ≡ returns rt')
        × Answers h info (p ++ r ∷ rest) rt rt'
  process_all-rest h p r [] info rt t at_h rows (v, vs) whole =
      let (k, at_k) = get_elem?-some sizes r.grp_index v.group in
      let (info', b, c, t', e, src, base) =
        collect-Tallied p info r k t
          (All-append (HasRows (length ops)) p (r ∷ []) rows (v.rows, tt)) at_k
          (still_open sizes p r [] k whole at_k) in
      let none_open : open_groups sizes info'.resp_q ≡ 0 =
        open_groups-zero sizes info'.resp_q (λ g k q at_g at_q.
          ap length (some-inj (sym at_q ∙ t'.queues g (get_elem?-lt sizes g k at_g)))
          ∙ whole g k at_g) in
      (
        answer rt h info'.src (Message.comm_resp info'.resp),
        rw (
            process_resp-done h info info' b r rt v.id at_h c
              (e ∙ ground (arith, t'.count, none_open))),
        record {
          resp = info'.resp;
          sent = ap (λ s. (s, Message.comm_resp info'.resp) ∷ rt.sent) src;
          gone = get_elem?-set_self rt.infos h none (get_elem?-lt rt.infos h _ at_h);
          base = base;
          sums = λ g k at_g. t'.sums g (at_g ∙ ap some (sym (whole g k at_g)));
        },
      )
    where
      some-inj : {A : Type 0} {x y : A} → some x ≡ some y → x ≡ y
      some-inj e = cc
  process_all-rest h p r (r2 ∷ rest) info rt t at_h rows (v, vs) whole =
      let (k, at_k) = get_elem?-some sizes r.grp_index v.group in
      let (info', b, c, t', e, src, base) =
        collect-Tallied p info r k t
          (All-append (HasRows (length ops)) p (r ∷ []) rows (v.rows, tt)) at_k
          (still_open sizes p r (r2 ∷ rest) k whole at_k) in
      let (k2, at_k2) = get_elem?-some sizes r2.grp_index vs.0.group in
      let whole' : Complete sizes ((p ++ r ∷ []) ++ r2 ∷ rest) =
        subst (Complete sizes) (sym (append_assoc p (r ∷ []) (r2 ∷ rest))) whole in
      let open2 =
        open_groups-pos sizes info'.resp_q r2.grp_index at_k2 (t'.queues r2.grp_index vs.0.group)
          (below (still_open sizes (p ++ r ∷ []) r2 rest k2 whole' at_k2)) in
      let next = store rt h (some (Waiting.on_values info')) in
      let (rt', done, a) =
        process_all-rest h (p ++ r ∷ []) r2 rest info' next t'
          (get_elem?-set_self rt.infos h _ (get_elem?-lt rt.infos h _ at_h))
          (All-append (HasRows (length ops)) p (r ∷ []) rows (v.rows, tt)) vs whole' in
      (
        rt',
        rw (process_resp-more h info info' b r rt v.id at_h c (e ∙ ground (arith, t'.count, open2)))
            done,
        record {
          resp = a.resp;
          sent = a.sent ∙ ap (λ s. (s, Message.comm_resp a.resp) ∷ rt.sent) src;
          gone = a.gone;
          base = a.base ∙ base;
          sums = λ g k at_g.
              subst (λ rs. Holds add (length ops) g (of_group g rs) a.resp)
                (append_assoc p (r ∷ []) (r2 ∷ rest)) (a.sums g k at_g);
        },
      )
    where
      below : {a b : ℕ} → a < b → a ≢ b
      below lt e = absurd (omega arith)
