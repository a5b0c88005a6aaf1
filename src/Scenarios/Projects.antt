-- ===== src/Scenarios/Projects.antt =====
-- Targets of new projects.
use saki_cli.Base.{◌≡◌, refl, codes}
use saki_cli.Project.{resolve_target, invalid, fine, bad}

base_kept :
    resolve_target (codes "/tmp") (codes " app ") (codes "/home/ana") ≡ fine (codes "/tmp/app")
unfolding resolve_target
base_kept = refl

home_expanded :
    resolve_target (codes "~/src") (codes "app") (codes "/home/ana")
    ≡ fine (codes "/home/ana/src/app")
unfolding resolve_target
home_expanded = refl

-- A slash at the end of the base is refused.
slash_refused :
    resolve_target (codes "/tmp/") (codes "app") (codes "/home/ana")
    ≡ bad (invalid (codes "invalid project path"))
unfolding resolve_target
slash_refused = refl
