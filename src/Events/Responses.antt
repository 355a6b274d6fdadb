-- ===== src/Events/Responses.antt =====
-- src/pwr/events.h: the answers to the requests, with the errors as three vectors in step.
use pwrapi_ref.Prelude.{ℕ, List, []}
use pwrapi_ref.Prelude.Int.{ℤ}
use pwrapi_ref.Wire.{◌>>=◌, give, Serial, vector, Text}
use pwrapi_ref.Events.{u64, u32, words, attrs, texts, CommEvent, comm_event}

pub record CommRespEvent : Type 0 where
  pub base : CommEvent
  pub time_stamp : List (List ℕ)
  pub value : List (List ℕ)
  pub grp_index : ℕ
  pub err_obj : List Text
  pub err_attr : List ℤ
  pub err_value : List ℤ

unfoldable pub comm_resp_event : Serial CommRespEvent
comm_resp_event = record {
  put = λ e buf.
      let results =
        (vector words []).put e.value
          ((vector words []).put e.time_stamp (comm_event.put e.base buf)) in
      texts.put e.err_obj
        (attrs.put e.err_attr (attrs.put e.err_value (u64.put e.grp_index results)));
  get = do
    err_obj ← texts.get
    err_attr ← attrs.get
    err_value ← attrs.get
    grp_index ← u64.get
    value ← (vector words []).get
    time_stamp ← (vector words []).get
    base ← comm_event.get
    give (record {
      base = base;
      time_stamp = time_stamp;
      value = value;
      grp_index = grp_index;
      err_obj = err_obj;
      err_attr = err_attr;
      err_value = err_value;
    });
}

pub record CommLogRespEvent : Type 0 where
  pub base : CommEvent
  pub err_obj : List Text
  pub err_attr : List ℤ
  pub err_value : List ℤ

unfoldable pub comm_log_resp_event : Serial CommLogRespEvent
comm_log_resp_event = record {
  put = λ e buf.
      texts.put e.err_obj
        (attrs.put e.err_attr (attrs.put e.err_value (comm_event.put e.base buf)));
  get = do
    err_obj ← texts.get
    err_attr ← attrs.get
    err_value ← attrs.get
    base ← comm_event.get
    give (record { base = base; err_obj = err_obj; err_attr = err_attr; err_value = err_value });
}

pub record CommGetSamplesRespEvent : Type 0 where
  pub base : CommEvent
  pub start_time : ℕ
  pub count : ℕ
  pub samples : List ℕ
  pub err_obj : List Text
  pub err_attr : List ℤ
  pub err_value : List ℤ

unfoldable pub comm_get_samples_resp_event : Serial CommGetSamplesRespEvent
comm_get_samples_resp_event = record {
  put = λ e buf.
      let errors =
        attrs.put e.err_value
          (attrs.put e.err_attr (texts.put e.err_obj (comm_event.put e.base buf))) in
      u64.put e.start_time (u32.put e.count (words.put e.samples errors));
  get = do
    start_time ← u64.get
    count ← u32.get
    samples ← words.get
    err_value ← attrs.get
    err_attr ← attrs.get
    err_obj ← texts.get
    base ← comm_event.get
    give (record {
      base = base;
      start_time = start_time;
      count = count;
      samples = samples;
      err_obj = err_obj;
      err_attr = err_attr;
      err_value = err_value;
    });
}
