-- ===== src/Router/Sums.antt =====
-- Proofs about tools/pwrdaemon/router/commRespEvent.h: what the values of a complete group are.
use pwrapi_ref.Prelude.{
  ℕ, zero, suc, ◌<◌, ◌≡◌, refl, sym, ap, ◌∙◌, arith, List, [], ◌∷◌, returns, length, get_or, All,
}
use pwrapi_ref.Events.Responses.{CommRespEvent}
use pwrapi_ref.Router.Answers.{ValueOp, value_op_code, first_row, add_row, add_rows}

-- A response with a value and a timestamp for each of `n` attributes.
pub record HasRows (n : ℕ) (r : CommRespEvent) : Type 0 where
  pub values : length (first_row r.value) ≡ n
  pub stamps : length (first_row r.time_stamp) ≡ n

abbrev pub AllAdd : List ℕ → Type 0
AllAdd ops = All (λ op. op ≡ value_op_code ValueOp.fp_add) ops

module _ (add : ℕ → ℕ → ℕ) where
  -- The values of attribute `i`, added to `s` in the order of the responses.
  abbrev pub total : ℕ → ℕ → List CommRespEvent → ℕ
  total i s [] = s
  total i s (r ∷ rs) = total i (add s (get_or (first_row r.value) i 0)) rs

  -- The timestamps of the last response.
  abbrev pub last_stamps : List ℕ → List CommRespEvent → List ℕ
  last_stamps ts [] = ts
  last_stamps ts (r ∷ rs) = last_stamps (first_row r.time_stamp) rs

  abbrev sums_with : List ℕ → List ℕ → List ℕ
  sums_with (s ∷ sums) (v ∷ values) = add s v ∷ sums_with sums values
  sums_with _ _ = []

  length-sums_with :
      (xs ys : List ℕ) (n : ℕ) → length xs ≡ n → length ys ≡ n → length (sums_with xs ys) ≡ n
  length-sums_with [] [] n h h' = h
  length-sums_with [] (y ∷ ys) n h h' = absurd (omega arith)
  length-sums_with (x ∷ xs) [] n h h' = absurd (omega arith)
  length-sums_with (x ∷ xs) (y ∷ ys) zero h h' = absurd (omega arith)
  length-sums_with (x ∷ xs) (y ∷ ys) (suc n) h h' =
      ap suc (length-sums_with xs ys n (omega arith) (omega arith))

  get_or-sums_with :
      (xs ys : List ℕ) (i : ℕ)
      → i < length xs
      → length ys ≡ length xs
      → get_or (sums_with xs ys) i 0 ≡ add (get_or xs i 0) (get_or ys i 0)
  get_or-sums_with [] ys i h e = elim h [ ]
  get_or-sums_with (x ∷ xs) [] i h e = absurd (omega arith)
  get_or-sums_with (x ∷ xs) (y ∷ ys) zero h e = refl
  get_or-sums_with (x ∷ xs) (y ∷ ys) (suc i) h e =
      get_or-sums_with xs ys i (omega arith) (omega arith)

  add_row-sums :
      (ops sums values stamps : List ℕ)
      → AllAdd ops
      → length sums ≡ length ops
      → length values ≡ length ops
      → length stamps ≡ length ops
      → add_row add ops sums values stamps ≡ returns (sums_with sums values, stamps)
  unfolding add_row
  add_row-sums [] [] [] [] h a b c = refl
  add_row-sums [] (s ∷ sums) values stamps h a b c = absurd (omega arith)
  add_row-sums [] [] (v ∷ values) stamps h a b c = absurd (omega arith)
  add_row-sums [] [] [] (t ∷ stamps) h a b c = absurd (omega arith)
  add_row-sums (op ∷ ops) [] values stamps h a b c = absurd (omega arith)
  add_row-sums (op ∷ ops) (s ∷ sums) [] stamps h a b c = absurd (omega arith)
  add_row-sums (op ∷ ops) (s ∷ sums) (v ∷ values) [] h a b c = absurd (omega arith)
  add_row-sums (op ∷ ops) (s ∷ sums) (v ∷ values) (t ∷ stamps) (h, hs) a b c =
      rw (h, add_row-sums ops sums values stamps hs (omega arith) (omega arith) (omega arith))

  -- A queue of such responses is added up, one sum for each attribute.
  pub add_rows-total :
      (ops sums stamps : List ℕ) (queue : List CommRespEvent)
      → AllAdd ops
      → All (HasRows (length ops)) queue
      → length sums ≡ length ops
      → (xs : List ℕ) × (add_rows add ops (sums, stamps) queue
          ≡ returns (xs, last_stamps stamps queue))
        × (length xs ≡ length ops)
        × ((i : ℕ) → i < length ops → get_or xs i 0 ≡ total i (get_or sums i 0) queue)
  unfolding add_rows
  add_rows-total ops sums stamps [] h hs e = (sums, refl, e, λ i lt. refl)
  add_rows-total ops sums stamps (r ∷ rs) h (hr, hs) e =
      let row = first_row r.value in
      let (xs, done, len, each) =
        add_rows-total ops (sums_with sums row) (first_row r.time_stamp) rs h hs
          (length-sums_with sums row (length ops) e hr.values) in
      (
        xs,
        rw (add_row-sums ops sums row (first_row r.time_stamp) h e hr.values hr.stamps) done,
        len,
        λ i lt.
            each i lt
            ∙ ap (λ s. total i s rs)
                (get_or-sums_with sums row i (omega arith) (hr.values ∙ sym e)),
      )
