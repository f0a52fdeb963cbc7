-- ===== src/Worker/Frame.antt =====
-- The frames of packages/worker-protocol/src/index.ts, `workerFrameSchema`: what its strict objects and
-- unions admit, by their types. The bounds of the fields are tests, in FrameSchema.
use pidex.Prelude.{ℕ, Bool, List, Option, Text}

pub record Constraints : Type 0 where
  pub values : Option (List Text)
  pub maximum_bytes : Option ℕ

pub record Capability : Type 0 where
  pub id : Text
  pub version : ℕ
  pub constraints : Option Constraints

pub data Provider : Type 0 where
  unchecked ready blocked : Provider

pub data Fact : Type 0 where
  assistant_delta : Text → Fact
  tool_started : Text → Text → Fact
  tool_completed : Text → Text → Text → Fact

pub data InteractionRequest : Type 0 where
  select : Text → List Text → InteractionRequest
  confirm : Text → Option Bool → InteractionRequest
  input editor : Text → Option Text → InteractionRequest

pub data InteractionResponse : Type 0 where
  dismissed : InteractionResponse
  text_value : Text → InteractionResponse
  flag_value : Bool → InteractionResponse

pub data Level : Type 0 where
  info warning error : Level

pub data PresentationEffect : Type 0 where
  notification : Level → Text → PresentationEffect
  status widget : Text → Option Text → PresentationEffect
  title : Option Text → PresentationEffect
  editor_text : Text → PresentationEffect

pub data MimeType : Type 0 where
  gif jpeg png webp : MimeType

-- `runInputImageSchema` of packages/protocol/src/input-image.ts
pub record Image : Type 0 where
  pub base64 : Text
  pub mime_type : MimeType

pub data StopReason : Type 0 where
  user host shutdown deadline : StopReason

pub data CheckpointState : Type 0 where
  exported published rejected : CheckpointState

pub data RunOutcome : Type 0 where
  completed failed cancelled interrupted : RunOutcome

pub data FaultScope : Type 0 where
  readiness run generation : FaultScope

pub data Body : Type 0 where
  bootstrap : Text → Text → Text → Text → Text → Body
  ready : List Capability → Bool → Bool → Provider → Body
  execute : Text → Text → Option (List Image) → Option Text → Option Text → Body
  fact : Text → Fact → Body
  presentation : PresentationEffect → Body
  steer : Text → Text → Option (List Image) → Body
  stop : Text → StopReason → Body
  interaction_request : Text → Option Text → InteractionRequest → Body
  interaction_response : Text → InteractionResponse → Body
  interaction_applied : Text → Body
  heartbeat : ℕ → Body
  checkpoint : Text → Text → CheckpointState → Body
  outcome : Text → RunOutcome → Option Text → Option Text → Body
  fault : FaultScope → Option Text → Text → Bool → Option Text → Body

-- `WorkerGenerationIdentity`
pub record Identity : Type 0 where
  pub session_id : Text
  pub worker_id : Text
  pub generation : ℕ
  pub protocol_generation : ℕ

pub record Frame : Type 0 where
  pub identity : Identity
  pub sequence : ℕ
  pub body : Body
