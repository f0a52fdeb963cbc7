-- ===== src/Worker/FrameSchema.antt =====
-- The bounds that `workerFrameSchema` of packages/worker-protocol/src/index.ts and
-- `runInputImagesSchema` of packages/protocol/src/input-image.ts set to the fields of a frame.
use pidex.Prelude.{
  ℕ, ◌+◌, ◌-◌, ◌*◌, ◌/◌, Bool, true, false, ◌&&◌, ◌||◌, List, [], ◌∷◌, Option, none, some, ◌==◌,
  ltb, leb, if◌then◌else◌, length, all, Text,
}
use pidex.Worker.Frame.{
  Constraints, Capability, Fact, assistant_delta, tool_started, tool_completed, InteractionRequest,
  select, confirm, input, editor, InteractionResponse, dismissed, text_value, flag_value,
  PresentationEffect, notification, status, widget, title, editor_text, Image, Body, bootstrap,
  execute, fact, presentation, steer, stop, interaction_request, interaction_response,
  interaction_applied, heartbeat, checkpoint, outcome, fault, Frame,
}

abbrev pub worker_protocol_generation : ℕ
worker_protocol_generation = 1

abbrev pub max_worker_frame_bytes : ℕ
max_worker_frame_bytes = 12 * 1024 * 1024

abbrev pub max_run_input_images : ℕ
max_run_input_images = 4

abbrev pub max_run_input_image_bytes : ℕ
max_run_input_image_bytes = 8 * 1024 * 1024

abbrev pub max_run_input_image_total_bytes : ℕ
max_run_input_image_total_bytes = 8 * 1024 * 1024

abbrev pub at_most : ℕ → Text → Bool
at_most n t = leb (length t) n

abbrev pub between : ℕ → ℕ → Text → Bool
between lo hi t = leb lo (length t) && leb (length t) hi

abbrev pub optional {ℓ} : {A : Type ℓ} → (A → Bool) → Option A → Bool
optional p none = true
optional p (some a) = p a

abbrev pub identifier : Text → Bool
identifier = between 1 200

abbrev pub text : Text → Bool
text = at_most 100000

abbrev pub message : Text → Bool
message = at_most 4000

abbrev pub presentation_text : Text → Bool
presentation_text = at_most 16384

abbrev pub name : Text → Bool
name = between 1 500

abbrev pub is_hexadecimal : ℕ → Bool
is_hexadecimal c = (leb 48 c && leb c 57) || (leb 97 c && leb c 102)

-- /^[a-f0-9]{64}$/
unfoldable pub authentication_token : Text → Bool
authentication_token t = (length t == 64) && all is_hexadecimal t

unfoldable pub constraints_fit : Constraints → Bool
constraints_fit c =
    optional (λ (vs : List Text). all (at_most 1000) vs && leb (length vs) 100) c.values
    && optional (λ n. ltb 0 n && leb n max_worker_frame_bytes) c.maximum_bytes

unfoldable pub capability_fits : Capability → Bool
unfolding constraints_fit
capability_fits c = identifier c.id && (ltb 0 c.version && optional constraints_fit c.constraints)

unfoldable pub fact_fits : Fact → Bool
fact_fits (assistant_delta t) = text t
fact_fits (tool_started call n) = identifier call && name n
fact_fits (tool_completed call n t) = identifier call && (name n && text t)

unfoldable pub interaction_fits : InteractionRequest → Bool
interaction_fits (select m options) =
    message m
    && (all (at_most 1000) options && (leb 1 (length options) && leb (length options) 100))
interaction_fits (confirm m default) = message m
interaction_fits (input m default) = message m && optional text default
interaction_fits (editor m default) = message m && optional text default

unfoldable pub response_fits : InteractionResponse → Bool
response_fits dismissed = true
response_fits (text_value t) = text t
response_fits (flag_value b) = true

unfoldable pub effect_fits : PresentationEffect → Bool
effect_fits (notification level t) = presentation_text t
effect_fits (status key t) = identifier key && optional presentation_text t
effect_fits (widget key t) = identifier key && optional presentation_text t
effect_fits (title t) = optional presentation_text t
effect_fits (editor_text t) = presentation_text t

abbrev pub is_base64_code : ℕ → Bool
is_base64_code c =
    (leb 65 c && leb c 90)
    || (leb 97 c && leb c 122)
    || (leb 48 c && leb c 57)
    || (c == 43)
    || (c == 47)

abbrev pub equals_sign : ℕ
equals_sign = 61

-- /^(?:[A-Za-z0-9+/]{4})*(?:[A-Za-z0-9+/]{2}==|[A-Za-z0-9+/]{3}=)?$/
unfoldable pub is_base64 : Text → Bool
is_base64 [] = true
is_base64 (a ∷ b ∷ c ∷ d ∷ rest) =
    let more = is_base64 rest in
    is_base64_code a
    && (is_base64_code b
        && ((is_base64_code c && (is_base64_code d && more))
            || ((length rest == 0)
                && (d == equals_sign)
                && ((c == equals_sign) || is_base64_code c))))
is_base64 _ = false

-- how many of the last two code units are padding
unfoldable pub padding : Text → ℕ
padding [] = 0
padding (a ∷ []) = if a == equals_sign then 1 else 0
padding (a ∷ b ∷ []) =
    if (a == equals_sign) && (b == equals_sign) then 2 else if b == equals_sign then 1 else 0
padding (a ∷ b ∷ c ∷ rest) = padding (b ∷ c ∷ rest)

unfoldable pub decoded_base64_bytes : Text → ℕ
unfolding padding
decoded_base64_bytes [] = 0
decoded_base64_bytes (c ∷ cs) = length (c ∷ cs) * 3 / 4 - padding (c ∷ cs)

-- the largest text of an image, `Math.ceil(bytes / 3) * 4 + 4`
abbrev pub max_base64_length : ℕ
max_base64_length = (max_run_input_image_bytes + 2) / 3 * 4 + 4

unfoldable pub image_fits : Image → Bool
unfolding is_base64 decoded_base64_bytes
image_fits i =
    between 1 max_base64_length i.base64
    && (is_base64 i.base64 && leb (decoded_base64_bytes i.base64) max_run_input_image_bytes)

unfoldable pub total_bytes : List Image → ℕ
total_bytes [] = 0
total_bytes (i ∷ is) = decoded_base64_bytes i.base64 + total_bytes is

unfoldable pub images_fit : List Image → Bool
unfolding image_fits total_bytes
images_fit is =
    all image_fits is
    && (leb (length is) max_run_input_images
        && leb (total_bytes is) max_run_input_image_total_bytes)

unfoldable pub body_fits : Body → Bool
unfolding authentication_token capability_fits fact_fits interaction_fits response_fits effect_fits
    images_fit
body_fits (bootstrap token release config pi cwd) =
    authentication_token token
    && (identifier release && (identifier config && (identifier pi && between 1 32767 cwd)))
body_fits (Body.ready capabilities release session provider) =
    all capability_fits capabilities
    && (leb 1 (length capabilities) && leb (length capabilities) 100)
body_fits (execute correlation prompt images model mode) =
    identifier correlation
    && (text prompt
        && (optional images_fit images && (optional identifier model && optional identifier mode)))
body_fits (fact correlation f) = identifier correlation && fact_fits f
body_fits (presentation effect) = effect_fits effect
body_fits (steer correlation t images) =
    identifier correlation && (text t && optional images_fit images)
body_fits (stop correlation reason) = identifier correlation
body_fits (interaction_request correlation run request) =
    identifier correlation && (optional identifier run && interaction_fits request)
body_fits (interaction_response correlation response) =
    identifier correlation && response_fits response
body_fits (interaction_applied correlation) = identifier correlation
body_fits (heartbeat ms) = true
body_fits (checkpoint correlation id state) = identifier correlation && identifier id
body_fits (outcome correlation result checkpoint_id detail) =
    identifier correlation && (optional identifier checkpoint_id && optional message detail)
body_fits (fault scope correlation fault_code retryable detail) =
    optional identifier correlation && (identifier fault_code && optional message detail)

unfoldable pub frame_fits : Frame → Bool
unfolding body_fits
frame_fits f =
    identifier f.identity.session_id
    && (identifier f.identity.worker_id
        && ((f.identity.protocol_generation == worker_protocol_generation) && body_fits f.body))
