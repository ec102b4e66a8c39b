-- ===== src/Profiles/Examples.antt =====
-- `Reassembler` of crates/syntra-core/src/peer_profile.rs with one small picture.
use syntra.Prelude.{arith, List, [], ◌∷◌, All, codes}
use syntra.Profiles.Reassembler.{ProfileHeader}
use syntra.Profiles.Avatars.{IsValid, IsWhole}
use syntra.Profiles.Runs.{Call, start_call, chunk_call, run, run-IsWhole}

abbrev pixel : ProfileHeader
pixel = record { width = 1; height = 1; total_len = 4; chunks = 1; display_name = codes "A" }

abbrev calls : List Call
calls =
    start_call (codes "peer") 1 pixel 0 ∷ chunk_call (codes "peer") 1 0 (1 ∷ 2 ∷ 3 ∷ 4 ∷ []) 10 ∷ []

run-IsWhole_example : IsValid (run calls []).0 × All IsWhole (run calls []).1
run-IsWhole_example = run-IsWhole calls [] (record { few = omega arith; fit = tt })
