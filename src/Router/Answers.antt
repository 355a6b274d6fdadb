-- ===== src/Router/Answers.antt =====
-- tools/pwrdaemon/router/commRespEvent.h and the CommReqInfo of router.h: the answers of the servers to one
-- request are collected by group, and a group that is complete is added up.
use pwrapi_ref.Prelude.{
  ℕ, ◌+◌, ◌-◌, ◌%◌, ◌^◌, Bool, true, false, List, [], ◌∷◌, ◌++◌, Outcome, returns, faults, ◌>>=◌,
  ◌>>◌, assert, in_bounds, ◌==◌, if◌then◌else◌, length, get_elem?, set, replicate,
}
use pwrapi_ref.Events.{OpType, op_code}
use pwrapi_ref.Events.Responses.{CommRespEvent}

-- src/pwr/impTypes.h.
pub data ValueOp : Type 0 where
  no_op fp_add int_add fp_avg int_avg : ValueOp

abbrev pub value_op_code : ValueOp → ℕ
value_op_code ValueOp.no_op = 0
value_op_code ValueOp.fp_add = 1
value_op_code ValueOp.int_add = 2
value_op_code ValueOp.fp_avg = 3
value_op_code ValueOp.int_avg = 4

-- The channel of the client, the operation of its event, the number of sources of each group and
-- what they have answered so far, how many groups are not complete, and the answer to the client.
pub record CommReqInfo : Type 0 where
  pub src : ℕ
  pub op : ℕ
  pub grp_info : List ℕ
  pub pending : ℕ
  pub value_op : List ℕ
  pub resp_q : List (List CommRespEvent)
  pub resp : CommRespEvent

-- The first vector of a response's values or timestamps; one that is missing has no elements to read.
abbrev pub first_row : List (List ℕ) → List ℕ
first_row [] = []
first_row (row ∷ rows) = row

-- `add` is the addition of doubles, on their bits.
module _ (add : ℕ → ℕ → ℕ) where
  -- One response: its values are added to the sums, and its timestamps replace the ones before.
  unfoldable pub add_row : List ℕ → List ℕ → List ℕ → List ℕ → Outcome (List ℕ × List ℕ)
  add_row [] sums values stamps = returns ([], [])
  add_row (op ∷ ops) (s ∷ sums) (v ∷ values) (t ∷ stamps) = do
    assert (op == value_op_code ValueOp.fp_add)
    (sums, stamps) ← add_row ops sums values stamps
    returns (add s v ∷ sums, t ∷ stamps)
  add_row (op ∷ ops) sums values stamps = assert (op == value_op_code ValueOp.fp_add) >> faults

  unfoldable pub add_rows :
      List ℕ → List ℕ × List ℕ → List CommRespEvent → Outcome (List ℕ × List ℕ)
  unfolding add_row
  add_rows ops acc [] = returns acc
  add_rows ops acc (r ∷ rs) = do
    acc ← add_row ops acc.0 (first_row r.value) (first_row r.time_stamp)
    add_rows ops acc rs

  -- The values of group `g` in the answer to a `Get`.
  unfoldable pub add_values : CommReqInfo → ℕ → List CommRespEvent → Outcome CommRespEvent
  unfolding add_rows
  add_values info g queue = do
    _ ← in_bounds (get_elem? info.resp.time_stamp g)
    _ ← in_bounds (get_elem? info.resp.value g)
    let zeros = replicate (length info.value_op) 0
    sums ← add_rows info.value_op (zeros, zeros) queue
    returns (record info.resp {
      value = set info.resp.value g sums.0;
      time_stamp = set info.resp.time_stamp g sums.1;
    })

  -- The errors of a group are added to those of the others.
  unfoldable pub add_errors : CommRespEvent → List CommRespEvent → CommRespEvent
  add_errors resp [] = resp
  add_errors resp (r ∷ rs) =
      add_errors
        (record resp {
          err_value = resp.err_value ++ r.err_value;
          err_attr = resp.err_attr ++ r.err_attr;
          err_obj = resp.err_obj ++ r.err_obj;
        })
        rs

  -- A group that is complete.
  unfoldable pub close_group : CommReqInfo → ℕ → List CommRespEvent → Outcome CommReqInfo
  unfolding add_values add_errors
  close_group info g queue = do
    resp ← if info.op == op_code OpType.get then add_values info g queue else returns info.resp
    let with_errors = add_errors resp queue
    returns (record info {
      resp = record with_errors { grp_index = 0; base = record with_errors.base { comm_id = 0 } };
      pending = (info.pending + (2 ^ 64 - 1)) % 2 ^ 64;
    })

  -- `RtrCommRespEvent::process` up to the sending of the answer, with the value that it returns: a
  -- response is kept until its group is complete.
  unfoldable pub collect : CommReqInfo → CommRespEvent → Outcome (CommReqInfo × Bool)
  unfolding close_group
  collect info ev = do
    queue ← in_bounds (get_elem? info.resp_q ev.grp_index)
    let queue = queue ++ ev ∷ []
    let info = record info { resp_q = set info.resp_q ev.grp_index queue }
    size ← in_bounds (get_elem? info.grp_info ev.grp_index)
    if length queue == size
        then (close_group info ev.grp_index queue >>= λ info. returns (info, true))
        else returns (info, false)
