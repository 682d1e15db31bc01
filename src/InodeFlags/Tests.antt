-- ===== src/InodeFlags/Tests.antt =====
-- The theorem of InodeFlags at a compressed file, and what nocomp.c says of it.
use testunion.Common.{ℕ, ◌≡◌, refl, [], ◌∷◌, Bool, true, some, map}
use testunion.InodeFlags.{Report, nocow, nocomp, add_flag}
use testunion.InodeFlags.Laws.{DoesAdd, nocow_says, nocomp_says, inode_flags_lem}

abbrev accepts : ℕ → Bool
accepts w = true

nocow_runs :
    ((nocow 2 true (some 4) accepts).written ≡ some 0x800004)
    × ((nocow 2 true (some 4) accepts).status ≡ 0)
unfolding nocow add_flag
nocow_runs = (refl, refl)

-- NOCOW is off, and said to be on.
nocomp_runs :
    map (λ (r : Report). r.on) (nocomp 2 true (some 4) accepts).reports ≡ true ∷ true ∷ true ∷ []
unfolding nocomp add_flag
nocomp_runs = refl

inode_flags_lem_example :
    DoesAdd 23 nocow_says 2 true (some 4) accepts (nocow 2 true (some 4) accepts)
    × DoesAdd 10 nocomp_says 2 true (some 4) accepts (nocomp 2 true (some 4) accepts)
inode_flags_lem_example = inode_flags_lem 2 true (some 4) accepts
