-- ===== src/Tests/Data.antt =====
-- A small canvas: a configuration node "c" that generates into the image node "n", which has an
-- image that is loading and one that is done; a project with the two, and a store that holds it.
use canvas_standalone.Prelude.{true, false, none, some, [], ◌∷◌}
use canvas_standalone.Json.{arr, nil, no_field}
use canvas_standalone.Canvas.{Node, Image, loading, success, no_metadata}
use canvas_standalone.Recovery.{Graph, Snapshot, JobStatus, queued, image, Record, Binding}
use canvas_standalone.Projects.{Project, lines, Sync}
use canvas_standalone.Projects.State.{State}
use canvas_standalone.Projects.Creation.{initial_viewport, new_sync, Source}

abbrev pub waiting_image : Image
waiting_image = record {
  id = "i1";
  status = loading;
  error_details = none;
  content = "";
  storage_key = "";
  natural_width = 0;
  natural_height = 0;
  bytes = 0;
  mime_type = "image/png";
}

abbrev pub image_node : Node
image_node = record {
  id = "n";
  type = "image";
  title = "Image";
  frame = no_field;
  metadata = some (record no_metadata {
    status = some loading;
    images = some (waiting_image ∷ record waiting_image { id = "i2"; status = success } ∷ []);
  });
}

abbrev pub config_node : Node
config_node = record {
  id = "c";
  type = "config";
  title = "Config";
  frame = no_field;
  metadata = some (record no_metadata { status = some loading });
}

abbrev pub graph : Graph
graph = record {
  nodes = config_node ∷ image_node ∷ [];
  connections = record { id = "e"; from_node_id = "c"; to_node_id = "n" } ∷ [];
}

abbrev pub job : JobStatus → Snapshot
job status = record {
  id = "t1";
  status = status;
  client_node_id = some "c";
  results = record { asset_id = some "a1"; mime_type = none } ∷ [];
  error_message = none;
  created_at = some 5;
}

abbrev pub entry : Record
entry = record {
  task_id = "t1";
  kind = image;
  source_node_id = "c";
  target_node_id = "n";
  image_id = some "i1";
}

abbrev pub binding : Binding
binding = record { entry = entry; snapshot = job queued }

abbrev pub project : Project
project = record {
  id = "p";
  title = "Plan";
  created_at = "2026-01-01";
  updated_at = "2026-01-02";
  graph = graph;
  chat_sessions = arr nil;
  active_chat_id = none;
  background_mode = lines;
  show_image_info = false;
  viewport = initial_viewport;
  recovery_revision = 0;
  recoveries = [];
}

abbrev pub blank_source : Source
blank_source = record {
  title = none;
  created_at = none;
  nodes = none;
  connections = none;
  chat_sessions = none;
  active_chat_id = none;
  background_mode = none;
  show_image_info = none;
  viewport = none;
  recoveries = none;
}

abbrev pub empty_store : State
empty_store = record {
  hydrated = true;
  projects = [];
  statuses = λ _. none;
  syncs = λ _. none;
  objects = λ _. new_sync;
  next_object = 0;
  drafts = λ _. none;
  recoveries = λ _. [];
  active_project = none;
  epoch = 0;
  aliases = [];
  monitors = [];
  cleanups = [];
}

abbrev pub saving_sync : Sync
saving_sync = record new_sync { version = 1; sequence = 1; saving = true }
