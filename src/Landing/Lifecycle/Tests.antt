-- ===== src/Landing/Lifecycle/Tests.antt =====
-- The theorems on landing pages, at one page with a candidate.
use growth_operator.Landing.Lifecycle.{
  generated, approved, published, Page, LandingDb, moved, transition, run_op, select_op, publish_op,
  can_transition, is_page, with_status, publish, select_variant, version_id, is_version, move,
}
use growth_operator.Landing.Lifecycle.Live.{IsSound, run_op-IsSound, is_live}
use growth_operator.Landing.Lifecycle.Route.{Reaches, here, step}
use growth_operator.Prelude.{some, ◌≡◌, arith, [], none, ◌∷◌, refl}

abbrev page : Page
page = record { id = 4; org_id = 1; status = generated; current_version_id = none }

abbrev db : LandingDb
db = record {
  pages = page ∷ [];
  versions =
      record {
        id = 11;
        org_id = 1;
        page_id = 4;
        version_no = 2;
        approved_by = none;
        published_at = none;
      }
      ∷ [];
  audit = [];
}

db-IsSound : IsSound db
unfolding is_live is_page
db-IsSound org id p h = λ live. absurd (ground (arith, h, live))

run_op-IsSound_example : IsSound (run_op 1 4 (some 9) (select_op 2) db).1
run_op-IsSound_example = run_op-IsSound 1 4 (some 9) (select_op 2) db db-IsSound

publish_runs :
    (run_op 1 4 (some 9) (publish_op 50) (run_op 1 4 (some 9) (select_op 2) db).1).0
    ≡ moved published
unfolding run_op publish transition select_variant version_id is_version is_page can_transition move
    with_status
publish_runs = refl

to_published : Reaches generated (approved ∷ published ∷ []) published
unfolding can_transition
to_published = step refl (step refl here)
