-- ===== src/Router/Tally.antt =====
-- Proofs about tools/pwrdaemon/router/commRespEvent.h: what one response changes.
use mathlib.Core.Path.{subst}
use pwrapi_ref.Prelude.{
  ℕ, zero, suc, ◌^◌, ◌<◌, ◌≡◌, ◌≢◌, ◌⊎◌, refl, sym, ap, ◌∙◌, arith, some, List, [], ◌∷◌, ◌++◌, ◌==◌,
  Bool-cases, inl, inr, length, get_elem?, get_or, set, replicate, length-set, get_elem?-set_self,
  get_elem?-set_ne, get_elem?-lt,
}
use pwrapi_ref.Events.Responses.{CommRespEvent}
use pwrapi_ref.Router.Answers.{CommReqInfo}
use pwrapi_ref.Router.Counts.{open_groups-still, open_groups-closed, open_groups-le}
use pwrapi_ref.Router.Sums.{total, last_stamps}
use pwrapi_ref.Router.Rounds.{
  of_group, of_group-own, of_group-other, Holds, Tallied, add_errors-rows, closed,
}

pub eq_cases : (a b : ℕ) → (a ≡ b) ⊎ (a ≢ b)
eq_cases a b = elim (Bool-cases (a == b)) [
  | inl e ↦ inl (ground arith)
  | inr e ↦ inr (λ h. ground arith)
]

some-injective : {A : Type 0} {x y : A} → some x ≡ some y → x ≡ y
some-injective e = cc

-- The queues after a response has been put into its own.
queues_next :
    (sizes : List ℕ) (p : List CommRespEvent) (qs : List (List CommRespEvent)) (r : CommRespEvent)
    → length qs ≡ length sizes
    → r.grp_index < length sizes
    → ((g : ℕ) → g < length sizes → get_elem? qs g ≡ some (of_group g p))
    → (g : ℕ) → g < length sizes
    → get_elem? (set qs r.grp_index (of_group r.grp_index p ++ r ∷ [])) g
      ≡ some (of_group g (p ++ r ∷ []))
queues_next sizes p qs r len mine old g lt = elim (eq_cases r.grp_index g) [
  | inl e ↦
      subst
        (λ g.
          get_elem? (set qs r.grp_index (of_group r.grp_index p ++ r ∷ [])) g
          ≡ some (of_group g (p ++ r ∷ [])))
        e own
  | inr h ↦
      get_elem?-set_ne qs r.grp_index g _ h ∙ old g lt ∙ ap some (sym (of_group-other p r g h))
]
  where
    own :
        get_elem? (set qs r.grp_index (of_group r.grp_index p ++ r ∷ [])) r.grp_index
        ≡ some (of_group r.grp_index (p ++ r ∷ []))
    own = get_elem?-set_self qs r.grp_index _ (omega arith) ∙ ap some (sym (of_group-own p r))

get_or-replicate : (n i : ℕ) → get_or {A = ℕ} (replicate n 0) i 0 ≡ 0
get_or-replicate zero i = refl
get_or-replicate (suc n) zero = refl
get_or-replicate (suc n) (suc i) = get_or-replicate n i

module _ (add : ℕ → ℕ → ℕ) (ops sizes : List ℕ) (p : List CommRespEvent) (info : CommReqInfo)
    (r : CommRespEvent) (t : Tallied add ops sizes p info) where
  -- The group of the response has as many responses as it has to have.
  full_own :
      (g : ℕ)
      → r.grp_index ≡ g
      → get_elem? sizes g ≡ some (length (of_group g (p ++ r ∷ [])))
      → get_elem? sizes r.grp_index ≡ some (length (of_group r.grp_index p ++ r ∷ []))
  full_own g e full =
      subst (λ g. get_elem? sizes g ≡ some (length (of_group g (p ++ r ∷ [])))) (sym e) full
      ∙ ap (λ q. some (length q)) (of_group-own p r)

  -- A group that did not get the response keeps its sums.
  others_hold :
      (resp : CommRespEvent) (g : ℕ)
      → r.grp_index ≢ g
      → get_elem? resp.value g ≡ get_elem? info.resp.value g
      → get_elem? resp.time_stamp g ≡ get_elem? info.resp.time_stamp g
      → get_elem? sizes g ≡ some (length (of_group g (p ++ r ∷ [])))
      → Holds add (length ops) g (of_group g (p ++ r ∷ [])) resp
  others_hold resp g h v s full =
      let same = of_group-other p r g h in
      let old = t.sums g (full ∙ ap (λ q. some (length q)) same) in
      rw same (record {
        row = old.row;
        here = v ∙ old.here;
        each = old.each;
        wide = old.wide;
        stamps = s ∙ old.stamps;
      })

  pub still :
      (k : ℕ)
      → get_elem? sizes r.grp_index ≡ some k
      → length (of_group r.grp_index p) < k
      → length (of_group r.grp_index p ++ r ∷ []) ≢ k
      → Tallied add ops sizes
          (p ++ r ∷ [])
          (record info { resp_q = set info.resp_q r.grp_index (of_group r.grp_index p ++ r ∷ []) })
  still k at_k room h = record {
    op = t.op;
    ops_kept = t.ops_kept;
    sizes_kept = t.sizes_kept;
    queues =
        queues_next sizes p info.resp_q r t.queue_count (get_elem?-lt sizes r.grp_index k at_k)
          t.queues;
    queue_count = length-set info.resp_q r.grp_index _ ∙ t.queue_count;
    count =
        t.count
        ∙ sym (
            open_groups-still sizes info.resp_q r.grp_index _ at_k
              (t.queues r.grp_index (get_elem?-lt sizes r.grp_index k at_k)) (omega arith) h);
    value_rows = t.value_rows;
    stamp_rows = t.stamp_rows;
    sums = λ g full. elim (eq_cases r.grp_index g) [
      | inl e ↦ absurd (h (some-injective (sym (full_own g e full) ∙ at_k)))
      | inr ne ↦ others_hold info.resp g ne refl refl full
    ];
  }

  -- The response that completes its group.
  module _ (k : ℕ) (at_k : get_elem? sizes r.grp_index ≡ some k)
      (room : length (of_group r.grp_index p) < k)
      (full : length (of_group r.grp_index p ++ r ∷ []) ≡ k) (few : length sizes < 2 ^ 64)
      (xs : List ℕ) (wide : length xs ≡ length ops)
      (each : (i : ℕ)
        → i < length ops
        → get_or xs i 0
          ≡ total add i
              (get_or (replicate (length ops) 0) i 0)
              (of_group r.grp_index p ++ r ∷ [])) where
    abbrev queue : List CommRespEvent
    queue = of_group r.grp_index p ++ r ∷ []

    abbrev stamps : List ℕ
    stamps = last_stamps add (replicate (length ops) 0) queue

    abbrev after : CommReqInfo
    after = closed add info r.grp_index (xs, stamps) queue

    mine : r.grp_index < length sizes
    mine = get_elem?-lt sizes r.grp_index k at_k

    after_value : after.resp.value ≡ set info.resp.value r.grp_index xs
    after_value = (add_errors-rows add _ queue).0

    after_stamp : after.resp.time_stamp ≡ set info.resp.time_stamp r.grp_index stamps
    after_stamp = (add_errors-rows add _ queue).1

    own-Holds : Holds add (length ops) r.grp_index (of_group r.grp_index (p ++ r ∷ [])) after.resp
    own-Holds = rw (of_group-own p r) (record {
      row = xs;
      here =
          ap (λ v. get_elem? v r.grp_index) after_value
          ∙ get_elem?-set_self info.resp.value r.grp_index xs (omega (arith, t.value_rows, mine));
      each = λ i lt. each i lt ∙ ap (λ z. total add i z queue) (get_or-replicate (length ops) i);
      wide = wide;
      stamps =
          ap (λ v. get_elem? v r.grp_index) after_stamp
          ∙ get_elem?-set_self info.resp.time_stamp r.grp_index stamps
              (omega (arith, t.stamp_rows, mine));
    })

    pub closes : Tallied add ops sizes (p ++ r ∷ []) after
    closes = record {
      op = t.op;
      ops_kept = t.ops_kept;
      sizes_kept = t.sizes_kept;
      queues = queues_next sizes p info.resp_q r t.queue_count mine t.queues;
      queue_count = length-set info.resp_q r.grp_index _ ∙ t.queue_count;
      count = omega (
        arith,
        t.count,
        open_groups-le sizes info.resp_q,
        open_groups-closed sizes info.resp_q r.grp_index _ at_k (t.queues r.grp_index mine)
            (omega arith) full,
      );
      value_rows = ap length after_value ∙ length-set info.resp.value r.grp_index xs ∙ t.value_rows;
      stamp_rows =
          ap length after_stamp ∙ length-set info.resp.time_stamp r.grp_index stamps ∙ t.stamp_rows;
      sums = λ g complete. elim (eq_cases r.grp_index g) [
        | inl e ↦
            subst (λ g. Holds add (length ops) g (of_group g (p ++ r ∷ [])) after.resp) e own-Holds
        | inr ne ↦
            others_hold after.resp g ne
              (ap (λ v. get_elem? v g) after_value
                ∙ get_elem?-set_ne info.resp.value r.grp_index g xs ne)
              (ap (λ v. get_elem? v g) after_stamp
                ∙ get_elem?-set_ne info.resp.time_stamp r.grp_index g stamps ne)
              complete
      ];
    }
