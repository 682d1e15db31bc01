-- ===== src/Checksum/Tests.antt =====
-- The theorems of Checksum at a file of 8192 bytes, written directly in blocks of 512.
use testunion.Common.{pos, Bool, not, ◌==◌, ℕ, ◌+◌, ◌-◌, ◌*◌, ◌/◌, ◌≡◌, refl, List, [], ◌∷◌, true}
use testunion.Checksum.Places.{Place, get_randnum_align, choose_place}
use testunion.Checksum.Loops.{Turn, Job, writer, mapper, Crew, forked}
use testunion.Common.Options.{Text, Opt}
use testunion.Checksum.Main.{Urandom, World}
use testunion.Checksum.Bounds.{place_of}

-- A random number of one half.
abbrev half : ℕ → ℕ
half d = d / 2

abbrev job : Job
job = record { direct = true; sync_range = true; sync_file = true; bufsize = 512; file_size = 8192 }

abbrev turn : Turn
turn = record { part = half; printed = 12; writes = true; syncs_range = true; syncs_file = true }

place_runs : place_of job turn ≡ record { offset = 3584; len = 512 }
unfolding choose_place get_randnum_align
place_runs = refl

abbrev text : Place
text = record { offset = 5000; len = 12 }

-- Reads decimal digits.
abbrev read_from : ℕ → Text → ℕ
read_from n [] = n
read_from n (c ∷ cs) = read_from (n * 10 + (c - b'0')) cs

-- -d -b 512 -l 8192 -n 2 -m 1 -r -f
abbrev options : List Opt
options =
    record { letter = b'd'; optarg = [] }
    ∷ record { letter = b'b'; optarg = b'5' ∷ b'1' ∷ b'2' ∷ [] }
    ∷ record { letter = b'l'; optarg = b'8' ∷ b'1' ∷ b'9' ∷ b'2' ∷ [] }
    ∷ record { letter = b'n'; optarg = b'2' ∷ [] }
    ∷ record { letter = b'm'; optarg = b'1' ∷ [] }
    ∷ record { letter = b'r'; optarg = [] }
    ∷ record { letter = b'f'; optarg = [] }
    ∷ []

-- The second fork fails.
abbrev forks : ℕ → Bool
forks k = not (k == 1)

abbrev crew : Crew
crew = forked (writer ∷ mapper ∷ []) 3

abbrev urandom : Urandom
urandom = record { opens = true; reads = pos 8 }

abbrev world : World
world = record { memory = true; opens = true; maps = true; turns = λ _. turn }
