-- ===== src/Projects/Saving.antt =====
-- `persistProject` of frontend/src/adapters/use-canvas-store.ts, cut at its `await`s. A flight is
-- one run of its inner function, with the sync object that it found.
use canvas_standalone.Prelude.{
  ℕ, String, true, false, not, ◌&&◌, Option, none, some, if◌then◌else◌, nat_eq, is_some,
}
use canvas_standalone.Json.{Value}
use canvas_standalone.Projects.{Project, dirty, saving, saved, error, conflict}
use canvas_standalone.Projects.Document.{project_document}
use canvas_standalone.Projects.State.{
  State, project_of, set_status, on_object, update_project, remove_draft, Failure, is_conflict,
  readable_error,
}

-- What the flight waits for: `sync.creating`, the answer to `updateProject` with what was sent, or
-- the removal of the draft.
pub data Stage : Type 0 where
  waiting : Stage
  sent : ℕ → ℕ → String → Value → Stage
  clearing : Stage

pub record Flight : Type 0 where
  pub id : String
  pub object : ℕ
  pub stage : Stage

-- The answer to `updateProject`.
pub record Updated : Type 0 where
  pub version : ℕ
  pub name : String
  pub created_at : String
  pub updated_at : String

abbrev pub begin : String → ℕ → State → State × Option Flight
begin id r s = (
  set_status id saving none (on_object r (λ y. record y { saving = true }) s),
  some (record { id = id; object = r; stage = waiting }),
)

-- Up to `await sync.creating`.
unfoldable pub persist : String → State → State × Option Flight
persist id s = elim (s.syncs id) [
  | none ↦ (s, none)
  | some r ↦
      if (s.objects r).blocked
      then (s, none)
      else if (s.objects r).saving
      then (on_object r (λ y. record y { retry_after_save = true }) s, none)
      else begin id r s
]

-- The `finally` block.
unfoldable pub finally : Flight → State → State × Option Flight
finally f s =
    let y = s.objects f.object in
    if y.retry_after_save && not y.blocked
    then persist f.id
        (on_object f.object (λ y. record y { saving = false; retry_after_save = false }) s)
    else (on_object f.object (λ y. record y { saving = false }) s, none)

-- The `catch` block, and `finally` after it.
unfoldable pub fail_flight : Flight → Failure → State → State × Option Flight
fail_flight f e s =
    let message = readable_error e "Project save failed" in
    finally f (
      if is_conflict e
      then set_status f.id conflict (some message)
          (on_object f.object (λ y. record y { blocked = true }) s)
      else set_status f.id error (some message) s)

-- From `await sync.creating` to the call of `updateProject`.
unfoldable pub send : Flight → State → State × Option Flight
send f s = elim (project_of f.id s) [
  | none ↦ finally f s
  | some p ↦
      if is_some (s.syncs f.id)
      then (
        s,
        some (record f {
          stage =
              sent (s.objects f.object).sequence (s.objects f.object).version p.title
                (project_document s.aliases p);
        }),
      )
      else finally f s
]

abbrev pub merge_updated : Updated → Project → Project
merge_updated u p = record p {
  title = u.name;
  created_at = u.created_at;
  updated_at = u.updated_at;
}

-- `sync.version = updated.version` and the write into the store.
abbrev pub accept : Flight → Updated → State → State
accept f u s =
    update_project f.id (merge_updated u)
      (on_object f.object (λ y. record y { version = u.version }) s)

-- From the answer to `updateProject` on; the sequence number is the one that was sent.
unfoldable pub accepted : Flight → ℕ → Updated → State → State × Option Flight
accepted f sequence u s =
    if is_some (s.syncs f.id)
    then if nat_eq (s.objects f.object).sequence sequence
      then (remove_draft f.id (accept f u s), some (record f { stage = clearing }))
      else finally f (
          set_status f.id dirty none
            (on_object f.object (λ y. record y { retry_after_save = true }) (accept f u s)))
    else finally f s

-- After `await drafts.removeItem(id)`.
unfoldable pub draft_removed : Flight → State → State × Option Flight
draft_removed f s = finally f (set_status f.id saved none s)
