-- ===== src/Tests/Videos.antt =====
-- The tasks of videos at concrete requests and answers.
use canvas_standalone.Prelude.{
  ◌*◌, ◌≡◌, ◌≢◌, refl, true, false, none, some, [], ◌∷◌, List, inl, length, arith, ℕ, suc, zero,
}
use Prim.Native.Nat.{◌∣◌}
use canvas_standalone.VideoTasks.Parameters.{Config, Offer, whole, reduced, video_parameters}
use canvas_standalone.VideoTasks.Parameters.Ratio.{reduced-lowest}
use canvas_standalone.VideoTasks.Parameters.Offered.{AreFrom, IsFrom, video_parameters-IsFrom}
use canvas_standalone.Recovery.{MediaTask, JobStatus, running, completed, video}
use canvas_standalone.Tests.Data.{job}
use canvas_standalone.VideoTasks.{
  Turn, Answer, answered, refused, error, abort_error, cancel, clean, thrown, waiting,
  request_video, video_task_state,
}
use canvas_standalone.AssetRuntime.{asset_id_from_key}
use canvas_standalone.VideoTasks.Deadline.{length-request_video}
use canvas_standalone.VideoTasks.Calls.{Accounted, request_video-Accounted}
use canvas_standalone.VideoTasks.Creation.{
  Capability, Request, Input, Context, made, create, cancel as cancel_call, create_task,
}

abbrev task_in : JobStatus → MediaTask
task_in status = record { kind = video; snapshot = job status }

abbrev turn : Answer → Turn
turn a = record { took = 100; answer = a; late = 3 }

abbrev short_turns : List Turn
short_turns =
    turn (answered (task_in running))
    ∷ turn (refused (error "lost"))
    ∷ turn (answered (task_in completed))
    ∷ []

returned_calls : (request_video none 50 1000 short_turns).calls ≡ clean ∷ []
unfolding request_video video_task_state
returned_calls = refl

aborted_run :
    request_video (some 2000) 50 1000 short_turns
    ≡ record { calls = cancel ∷ clean ∷ []; outcome = thrown abort_error }
unfolding request_video video_task_state
aborted_run = refl

-- the same turn again and again
abbrev repeated : ℕ → Turn → List Turn
repeated zero t = []
repeated (suc n) t = t ∷ repeated n t

length-repeated : (n : ℕ) (t : Turn) → length (repeated n t) ≡ n
length-repeated zero t = refl
length-repeated (suc n) t = omega (arith, length-repeated n t)

length-request_video_example :
    (request_video none 50 1000 (repeated 744 (turn (answered (task_in running))))).outcome
    ≢ waiting
length-request_video_example =
    length-request_video none 50 1000 (repeated 744 (turn (answered (task_in running))))
      (omega (arith, length-repeated 744 (turn (answered (task_in running)))))

request_video-Accounted_example :
    Accounted short_turns
      (request_video none 50 1000 short_turns).calls
      (request_video none 50 1000 short_turns).outcome
request_video-Accounted_example = request_video-Accounted none 50 1000 short_turns

abbrev offer : Offer
offer = record {
  video_seconds = 4 ∷ 8 ∷ [];
  aspect_ratios = "16:9" ∷ "9:16" ∷ [];
  resolutions = "720P" ∷ [];
  default_ratio = none;
  default_resolution = none;
}

abbrev portrait : Config
portrait = record {
  seconds = whole 8;
  size = "1080x1920";
  quality = " 720 ";
  generate_audio = "false";
  watermark = "";
}

abbrev capability : Capability
capability = record {
  media_kind = some "video";
  generation = true;
  max_input_images = 1;
  offer = offer;
}

abbrev context : Context
context = record {
  project_id = some "p";
  api_key_id = some 3;
  capability_of = λ m. some capability;
  aliases = [];
  upload = λ source. inl "asset:up";
  earliest = λ e es. e;
  fresh_node = "n";
  fresh_key = "k";
  aborted_first = false;
  aborted_uploaded = false;
  aborted_created = true;
  answer = made "t1";
}

abbrev request : Request
request = record {
  model = "veo";
  video_model = "";
  client_node_id = none;
  prompt = " a cat ";
  references = record { storage_key = none; data_url = "data:x"; url = none } ∷ [];
  options = portrait;
}

abbrev sent : Input
sent = record {
  project_id = "p";
  client_node_id = "video-n";
  api_key_id = 3;
  selected_model = "veo";
  prompt = "a cat";
  reference_asset_ids = "up" ∷ [];
  parameters = record {
    seconds = 8;
    size = "9:16";
    resolution = "720P";
    generate_audio = false;
    watermark = false;
  };
}

-- An abort while the server makes the task cancels it.
aborted_creation :
    (create_task context request).calls ≡ create sent "p:video-n:video:k" ∷ cancel_call "t1" ∷ []
unfolding create_task asset_id_from_key
aborted_creation = refl

portrait_parameters : video_parameters portrait offer ≡ record {
  seconds = 8;
  size = "9:16";
  resolution = "720P";
  generate_audio = false;
  watermark = false;
}
unfolding video_parameters
portrait_parameters = refl

video_parameters-IsFrom_example :
    AreFrom (video_parameters portrait offer).seconds (4 ∷ 8 ∷ [])
    × (IsFrom (video_parameters portrait offer).size ("16:9" ∷ "9:16" ∷ [])
        × IsFrom (video_parameters portrait offer).resolution ("720P" ∷ []))
video_parameters-IsFrom_example = video_parameters-IsFrom portrait offer refl refl refl

reduced_size :
    ((reduced 1080 1920).0 * 1920 ≡ (reduced 1080 1920).1 * 1080)
    × ((k : ℕ) → k ∣ (reduced 1080 1920).0 → k ∣ (reduced 1080 1920).1 → k ≡ 1)
reduced_size = reduced-lowest 1080 1920 (omega arith) (omega arith)
