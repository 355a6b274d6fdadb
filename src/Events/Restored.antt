-- ===== src/Events/Restored.antt =====
-- Proofs about src/pwr/events.h: every event is read back as it was written.
use pwrapi_ref.Prelude.{ℕ, ◌∙◌, List, [], All}
use pwrapi_ref.Prelude.Int.{ℤ, pos}
use pwrapi_ref.Wire.{int32, vector, Text, text}
use pwrapi_ref.Wire.Values.{
  Restores, read_back, Fits, IsInt32, IsShort, IsText, unsigned-Restores, int32-Restores,
  vector-Restores, text-Restores,
}
use pwrapi_ref.Events.Requests.{
  ServerConnectEvent, server_connect_event, CommCreateEvent, comm_create_event, CommReqEvent,
  comm_req_event, CommLogReqEvent, comm_log_req_event, CommGetSamplesReqEvent,
  comm_get_samples_req_event,
}
use pwrapi_ref.Events.Responses.{
  CommRespEvent, comm_resp_event, CommLogRespEvent, comm_log_resp_event, CommGetSamplesRespEvent,
  comm_get_samples_resp_event,
}
use pwrapi_ref.Events.{u64, u32, words, attrs, enums, texts, Event, event, CommEvent, comm_event}

pub u64-Restores : Restores u64 (Fits 8)
u64-Restores = unsigned-Restores 8

pub u32-Restores : Restores u32 (Fits 4)
u32-Restores = unsigned-Restores 4

abbrev pub Words : List ℕ → Type 0
Words ws = All (Fits 8) ws × IsShort ws

abbrev pub Codes : List ℤ → Type 0
Codes cs = All IsInt32 cs × IsShort cs

abbrev pub Enums : List ℕ → Type 0
Enums cs = All (Fits 4) cs × IsShort cs

abbrev pub Texts : List Text → Type 0
Texts ts = All IsText ts × IsShort ts

words-Restores : Restores words Words
words-Restores = vector-Restores u64 u64-Restores 0

attrs-Restores : Restores attrs Codes
attrs-Restores = vector-Restores int32 int32-Restores (pos 0)

enums-Restores : Restores enums Enums
enums-Restores = vector-Restores u32 u32-Restores 0

texts-Restores : Restores texts Texts
texts-Restores = vector-Restores text text-Restores []

-- The fields are in the range of their types, and the vectors are short.
pub record IsEvent (e : Event) : Type 0 where
  pub type : Fits 4 e.type
  pub id : Fits 8 e.id
  pub status : IsInt32 e.status

pub event-Restores : Restores event IsEvent
unfolding event
event-Restores e buf h =
    read_back int32 int32-Restores _ h.status
    ∙ read_back u32 u32-Restores _ h.type
    ∙ read_back u64 u64-Restores _ h.id

pub record IsServerConnect (e : ServerConnectEvent) : Type 0 where
  pub base : IsEvent e.base
  pub name : IsText e.name

pub server_connect_event-Restores : Restores server_connect_event IsServerConnect
unfolding server_connect_event
server_connect_event-Restores e buf h =
    read_back text text-Restores _ h.name ∙ read_back event event-Restores _ h.base

pub record IsComm (e : CommEvent) : Type 0 where
  pub base : IsEvent e.base
  pub comm_id : Fits 8 e.comm_id
  pub op : Fits 4 e.op

pub comm_event-Restores : Restores comm_event IsComm
unfolding comm_event
comm_event-Restores e buf h =
    read_back u32 u32-Restores _ h.op
    ∙ read_back u64 u64-Restores _ h.comm_id
    ∙ read_back event event-Restores _ h.base

pub record IsCommCreate (e : CommCreateEvent) : Type 0 where
  pub base : IsComm e.base
  pub members : All Texts e.members × IsShort e.members

pub comm_create_event-Restores : Restores comm_create_event IsCommCreate
unfolding comm_create_event
comm_create_event-Restores e buf h =
    read_back (vector texts []) (vector-Restores texts texts-Restores []) _ h.members
    ∙ read_back comm_event comm_event-Restores _ h.base

pub record IsCommReq (e : CommReqEvent) : Type 0 where
  pub base : IsComm e.base
  pub grp_index : Fits 8 e.grp_index
  pub attr_name : Codes e.attr_name
  pub set_values : Words e.set_values
  pub value_op : Enums e.value_op

pub comm_req_event-Restores : Restores comm_req_event IsCommReq
unfolding comm_req_event
comm_req_event-Restores e buf h =
    read_back u64 u64-Restores _ h.grp_index
    ∙ read_back enums enums-Restores _ h.value_op
    ∙ read_back attrs attrs-Restores _ h.attr_name
    ∙ read_back words words-Restores _ h.set_values
    ∙ read_back comm_event comm_event-Restores _ h.base

-- The three vectors of errors.
pub record AreErrors (err_obj : List Text) (err_attr err_value : List ℤ) : Type 0 where
  pub objects : Texts err_obj
  pub attributes : Codes err_attr
  pub values : Codes err_value

pub record IsCommResp (e : CommRespEvent) : Type 0 where
  pub base : IsComm e.base
  pub time_stamp : All Words e.time_stamp × IsShort e.time_stamp
  pub value : All Words e.value × IsShort e.value
  pub grp_index : Fits 8 e.grp_index
  pub errors : AreErrors e.err_obj e.err_attr e.err_value

pub comm_resp_event-Restores : Restores comm_resp_event IsCommResp
unfolding comm_resp_event
comm_resp_event-Restores e buf h =
    read_back texts texts-Restores _ h.errors.objects
    ∙ read_back attrs attrs-Restores _ h.errors.attributes
    ∙ read_back attrs attrs-Restores _ h.errors.values
    ∙ read_back u64 u64-Restores _ h.grp_index
    ∙ read_back (vector words []) (vector-Restores words words-Restores []) _ h.value
    ∙ read_back (vector words []) (vector-Restores words words-Restores []) _ h.time_stamp
    ∙ read_back comm_event comm_event-Restores _ h.base

pub record IsCommLogReq (e : CommLogReqEvent) : Type 0 where
  pub base : IsComm e.base
  pub attr_name : IsInt32 e.attr_name

pub comm_log_req_event-Restores : Restores comm_log_req_event IsCommLogReq
unfolding comm_log_req_event
comm_log_req_event-Restores e buf h =
    read_back int32 int32-Restores _ h.attr_name ∙ read_back comm_event comm_event-Restores _ h.base

pub record IsCommLogResp (e : CommLogRespEvent) : Type 0 where
  pub base : IsComm e.base
  pub errors : AreErrors e.err_obj e.err_attr e.err_value

pub comm_log_resp_event-Restores : Restores comm_log_resp_event IsCommLogResp
unfolding comm_log_resp_event
comm_log_resp_event-Restores e buf h =
    read_back texts texts-Restores _ h.errors.objects
    ∙ read_back attrs attrs-Restores _ h.errors.attributes
    ∙ read_back attrs attrs-Restores _ h.errors.values
    ∙ read_back comm_event comm_event-Restores _ h.base

pub record IsCommGetSamplesReq (e : CommGetSamplesReqEvent) : Type 0 where
  pub base : IsComm e.base
  pub attr_name : IsInt32 e.attr_name
  pub start_time : Fits 8 e.start_time
  pub period : Fits 8 e.period
  pub count : Fits 4 e.count

pub comm_get_samples_req_event-Restores : Restores comm_get_samples_req_event IsCommGetSamplesReq
unfolding comm_get_samples_req_event
comm_get_samples_req_event-Restores e buf h =
    read_back int32 int32-Restores _ h.attr_name
    ∙ read_back u64 u64-Restores _ h.start_time
    ∙ read_back u64 u64-Restores _ h.period
    ∙ read_back u32 u32-Restores _ h.count
    ∙ read_back comm_event comm_event-Restores _ h.base

pub record IsCommGetSamplesResp (e : CommGetSamplesRespEvent) : Type 0 where
  pub base : IsComm e.base
  pub start_time : Fits 8 e.start_time
  pub count : Fits 4 e.count
  pub samples : Words e.samples
  pub errors : AreErrors e.err_obj e.err_attr e.err_value

pub comm_get_samples_resp_event-Restores : Restores comm_get_samples_resp_event IsCommGetSamplesResp
unfolding comm_get_samples_resp_event
comm_get_samples_resp_event-Restores e buf h =
    read_back u64 u64-Restores _ h.start_time
    ∙ read_back u32 u32-Restores _ h.count
    ∙ read_back words words-Restores _ h.samples
    ∙ read_back attrs attrs-Restores _ h.errors.values
    ∙ read_back attrs attrs-Restores _ h.errors.attributes
    ∙ read_back texts texts-Restores _ h.errors.objects
    ∙ read_back comm_event comm_event-Restores _ h.base
