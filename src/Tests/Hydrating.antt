-- ===== src/Tests/Hydrating.antt =====
-- The records of recoveries of documents, at concrete documents.
use canvas_standalone.Prelude.{
  ◌≡◌, ◌≤◌, refl, none, some, [], ◌∷◌, String, List, All, Distinct, map, length, trim, utf16_length,
  arith, Option,
}
use canvas_standalone.Json.{Value, str, arr, nil, cons, nat}
use canvas_standalone.Recovery.{Record, image}
use canvas_standalone.Projects.Document.{is_ephemeral, project_document, record_value}
use canvas_standalone.Projects.{Viewport, Project}
use canvas_standalone.Projects.Document.{viewport_value}
use canvas_standalone.Tests.Data.{project}
use canvas_standalone.Projects.Hydration.{
  canvas_recovery_records, document_recoveries, read_viewport, too_long,
}
use canvas_standalone.Projects.Hydration.Written.{document_recoveries-project_document}
use canvas_standalone.Projects.Hydration.Records.{IsRead, canvas_recovery_records-IsRead}

abbrev recovery : String → Option String → Record
recovery task im = record {
  task_id = task;
  kind = image;
  source_node_id = "c";
  target_node_id = "n";
  image_id = im;
}

abbrev two_records : List Record
two_records = recovery "t1" none ∷ recovery "t2" (some "i1") ∷ []

-- a task that occurs twice, an entry that is no object, and an identifier with spaces
abbrev stored : Value
stored = arr (
    cons (record_value (recovery " t1 " none)) (
      cons (str "t2") (
        cons (record_value (recovery "t1" (some "i1")))
          (cons (record_value (recovery "t2" (some " "))) nil))))

kept_records : canvas_recovery_records stored ≡ recovery "t1" none ∷ recovery "t2" none ∷ []
unfolding canvas_recovery_records trim utf16_length
kept_records = refl

canvas_recovery_records-IsRead_example :
    All IsRead (canvas_recovery_records stored)
    × (Distinct (map Record.task_id (canvas_recovery_records stored))
        × (length (canvas_recovery_records stored) ≤ 100))
canvas_recovery_records-IsRead_example = canvas_recovery_records-IsRead stored

-- A project with the two records, in the document that is sent for it.
abbrev recovering : Project
recovering = record project { recoveries = two_records }

document_recoveries-project_document_example :
    document_recoveries (project_document [] recovering) ≡ two_records
unfolding trim too_long utf16_length is_ephemeral
document_recoveries-project_document_example =
    document_recoveries-project_document [] recovering (omega arith)
      (
        ((refl, refl), ((refl, refl), ((refl, refl), tt))),
        (((refl, refl), ((refl, refl), ((refl, refl), (refl, refl)))), tt),
      )
      ((refl, (refl, (refl, tt))), ((refl, (refl, (refl, refl))), tt)) (refl, (refl, tt))

abbrev moved : Viewport
moved = record { x = nat 10; y = nat 20; k = nat 2 }

viewport_again : read_viewport (some (viewport_value moved)) ≡ moved
unfolding read_viewport
viewport_again = refl
