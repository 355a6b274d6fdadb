-- ===== src/Router/Rounds.antt =====
-- Proofs about tools/pwrdaemon/router/commRespEvent.h: a request is answered once, when all the servers
-- have answered, with the sums over each group.
use pwrapi_ref.Prelude.{
  ℕ, ◌+◌, ◌-◌, ◌%◌, ◌^◌, ◌<◌, ◌≡◌, ◌≢◌, refl, true, false, some, List, [], ◌∷◌, ◌++◌, returns, ◌==◌,
  if◌then◌else◌, ==_self, ==_of_ne, Bool-cases, inl, inr, length, get_elem?, get_or, set, replicate,
  get_elem?-some, All,
}
use pwrapi_ref.Events.{OpType, op_code}
use pwrapi_ref.Events.Responses.{CommRespEvent}
use pwrapi_ref.Router.Answers.{CommReqInfo, add_rows, add_values, add_errors, close_group, collect}
use pwrapi_ref.Router.Counts.{open_groups}
use pwrapi_ref.Router.Sums.{total, last_stamps}

-- The responses of group `g`, in the order in which they came.
abbrev pub of_group : ℕ → List CommRespEvent → List CommRespEvent
of_group g [] = []
of_group g (r ∷ rs) = let rest = of_group g rs in if r.grp_index == g then r ∷ rest else rest

pub of_group-own :
    (p : List CommRespEvent) (r : CommRespEvent)
    → of_group r.grp_index (p ++ r ∷ []) ≡ of_group r.grp_index p ++ r ∷ []
of_group-own [] r = rw (==_self r.grp_index)
of_group-own (x ∷ p) r = elim (Bool-cases (x.grp_index == r.grp_index)) [
  | inl e ↦ rw (e, of_group-own p r)
  | inr e ↦ rw (e, of_group-own p r)
]

pub of_group-other :
    (p : List CommRespEvent) (r : CommRespEvent) (g : ℕ)
    → r.grp_index ≢ g
    → of_group g (p ++ r ∷ []) ≡ of_group g p
of_group-other [] r g h = rw (==_of_ne r.grp_index g h)
of_group-other (x ∷ p) r g h = elim (Bool-cases (x.grp_index == g)) [
  | inl e ↦ rw (e, of_group-other p r g h)
  | inr e ↦ rw (e, of_group-other p r g h)
]

pub of_group-All :
    (P : CommRespEvent → Type 0) (g : ℕ) (p : List CommRespEvent) → All P p → All P (of_group g p)
of_group-All P g [] h = tt
of_group-All P g (x ∷ p) (hx, h) = elim (Bool-cases (x.grp_index == g)) [
  | inl e ↦ rw e (hx, of_group-All P g p h)
  | inr e ↦ rw e (of_group-All P g p h)
]

-- The sums of one group stand in the answer.
pub record Holds (add : ℕ → ℕ → ℕ) (n g : ℕ) (q : List CommRespEvent) (resp : CommRespEvent)
    : Type 0 where
  pub row : List ℕ
  pub here : get_elem? resp.value g ≡ some row
  pub each : (i : ℕ) → i < n → get_or row i 0 ≡ total add i 0 q
  pub wide : length row ≡ n
  pub stamps : get_elem? resp.time_stamp g ≡ some (last_stamps add (replicate n 0) q)

-- What the router knows after the responses of `p` to a `Get`: the queue of each group, how many
-- groups are open, and the sums of the others.
pub record Tallied (add : ℕ → ℕ → ℕ) (ops sizes : List ℕ) (p : List CommRespEvent)
    (info : CommReqInfo) : Type 0 where
  pub op : info.op ≡ op_code OpType.get
  pub ops_kept : info.value_op ≡ ops
  pub sizes_kept : info.grp_info ≡ sizes
  pub queues : (g : ℕ) → g < length sizes → get_elem? info.resp_q g ≡ some (of_group g p)
  pub queue_count : length info.resp_q ≡ length sizes
  pub count : info.pending ≡ open_groups sizes info.resp_q
  pub value_rows : length info.resp.value ≡ length sizes
  pub stamp_rows : length info.resp.time_stamp ≡ length sizes
  pub sums :
      (g : ℕ)
      → get_elem? sizes g ≡ some (length (of_group g p))
      → Holds add (length ops) g (of_group g p) info.resp

module _ (add : ℕ → ℕ → ℕ) where
  -- The errors leave the rows of an answer alone, and its base.
  pub add_errors-rows :
      (resp : CommRespEvent) (rs : List CommRespEvent)
      → ((add_errors add resp rs).value ≡ resp.value)
        × ((add_errors add resp rs).time_stamp ≡ resp.time_stamp)
        × ((add_errors add resp rs).base ≡ resp.base)
  unfolding add_errors
  add_errors-rows resp [] = (refl, refl, refl)
  add_errors-rows resp (r ∷ rs) = add_errors-rows _ rs

  -- A response that does not complete its group.
  pub collect-still :
      (info : CommReqInfo) (r : CommRespEvent) (q : List CommRespEvent) (k : ℕ)
      → get_elem? info.resp_q r.grp_index ≡ some q
      → get_elem? info.grp_info r.grp_index ≡ some k
      → length (q ++ r ∷ []) ≢ k
      → collect add info r
        ≡ returns (record info { resp_q = set info.resp_q r.grp_index (q ++ r ∷ []) }, false)
  unfolding collect
  collect-still info r q k e f h = rw (e, f, ==_of_ne (length (q ++ r ∷ [])) k h)

  -- What is left of a request when the group `g` of the queue `q` was added up to `xs`.
  abbrev pub closed : CommReqInfo → ℕ → List ℕ × List ℕ → List CommRespEvent → CommReqInfo
  closed info g xs q =
      let with_errors =
        add_errors add
          (record info.resp {
            value = set info.resp.value g xs.0;
            time_stamp = set info.resp.time_stamp g xs.1;
          })
          q in
      record info {
        resp_q = set info.resp_q g q;
        resp = record with_errors { grp_index = 0; base = record with_errors.base { comm_id = 0 } };
        pending = (info.pending + (2 ^ 64 - 1)) % 2 ^ 64;
      }

  pub collect-closed :
      (info : CommReqInfo) (r : CommRespEvent) (q : List CommRespEvent) (k : ℕ)
      (xs : List ℕ × List ℕ)
      → info.op ≡ op_code OpType.get
      → get_elem? info.resp_q r.grp_index ≡ some q
      → get_elem? info.grp_info r.grp_index ≡ some k
      → length (q ++ r ∷ []) ≡ k
      → r.grp_index < length info.resp.value
      → r.grp_index < length info.resp.time_stamp
      → add_rows add info.value_op
          (replicate (length info.value_op) 0, replicate (length info.value_op) 0)
          (q ++ r ∷ [])
        ≡ returns xs
      → collect add info r ≡ returns (closed info r.grp_index xs (q ++ r ∷ []), true)
  unfolding collect close_group add_values
  collect-closed info r q k xs get e f h hv ht sum =
      let (v, at_v) = get_elem?-some info.resp.value r.grp_index hv in
      let (t, at_t) = get_elem?-some info.resp.time_stamp r.grp_index ht in
      rw (e, f, h, ==_self k, get, at_v, at_t, sum)
