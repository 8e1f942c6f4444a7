-- ===== src/Api.antt =====
-- The messages of api/arke.pb.go that the modelled code reads or builds, with the fields it uses. A
-- nil message pointer is `none`; a getter on a nil pointer gives the field's zero value.
use arke.Common.{ℕ, String, Bool, true, false, Option, none, some, List, []}
use arke.Common.Int.{ℤ}

pub record Error : Type 0 where
  pub message : String
  pub is_fatal : Bool

-- An error with `IsFatal` left at its zero value.
abbrev pub error_text : String → Error
error_text m = record { message = m; is_fatal = false }

abbrev pub fatal_text : String → Error
fatal_text m = record { message = m; is_fatal = true }

-- `GetMessage` of a pointer that may be nil.
abbrev pub message_of : Option Error → String
message_of none = ""
message_of (some e) = e.message

-- `other_address` holds the decimal text of a number that the enumeration lacks.
pub data AddressType : Type 0 where
  topic queue filter stream : AddressType
  other_address : String → AddressType

pub record AddressNode : Type 0 where
  pub name : String
  pub subjects : List String
  pub kind : AddressType
  pub auto_delete : Bool

-- An address with its parent address, the parent's parent address, and so on.
pub record Address : Type 0 where
  pub node : AddressNode
  pub open node use *
  pub ancestors : List AddressNode

pub data SourceType : Type 0 where
  quorum_queue temporary stream_source : SourceType
  other_source : String → SourceType

-- The matches of a filter, by header name, and whether any of them is enough.
pub record Filter : Type 0 where
  pub matches : List (String × String)
  pub any_match : Bool

pub record Source : Type 0 where
  pub name : String
  pub address : Option Address
  pub auto_delete : Bool
  pub options : List (String × String)
  pub exclusive : Bool
  pub prefetch_count : ℤ
  pub kind : SourceType
  pub declare_only : Bool
  pub single_active_consumer : Bool
  pub filters : List Filter

pub record Message : Type 0 where
  pub uuid : String
  pub headers : List (String × String)
  pub body : List ℕ
  pub address : Option Address
  pub persistent : Bool
  pub error : Option Error
  pub confirm : Bool
  pub publish_id : ℤ
  pub publisher_name : String

abbrev pub subjects_of : Message → List String
subjects_of m = elim m.address [ none ↦ [] | some a ↦ a.subjects ]

pub record MessageConsumed : Type 0 where
  pub uuid : String
  pub nack : Bool
  pub requeue_delay : ℤ

pub record ConnectionConfiguration : Type 0 where
  pub host : String
  pub port : ℕ
  pub provider : String
  pub tenant : String
  pub tls : Bool
  pub client_name : String
  pub username : String
  pub password : String

pub record ConnectResponse : Type 0 where
  pub success : Bool
  pub error : Option Error

pub record MessageResponse : Type 0 where
  pub success : Bool
  pub error : Option Error

pub record MessageConsumedResponse : Type 0 where
  pub uuid : String
  pub success : Bool
  pub error : Option Error
