-- ===== src/Synctest/Together.antt =====
-- The children side by side: their calls in any order in which each child makes its own.
use testunion.Common.{
  ℕ, ◌*◌, ◌≤◌, ◌≡◌, ◌≢◌, refl, arith, List, [], ◌∷◌, ◌++◌, Bool, All, All-append, All-split,
  All-mono, All-In, In, inl, inr, length, length-append, sym, ◌∙◌,
}
use testunion.Synctest.Child.{Name, Call}
use testunion.Synctest.History.{
  IsOwn, Does, opens, renames, unlinks, opens_dir, writes, fsyncs, closes, fsyncs_dir, History,
  start, next,
}
use testunion.Synctest.Ends.{limit}
use testunion.Synctest.Beside.{Does-before, Does-after}

abbrev IsMine : ℕ → List Name → Type 0
IsMine pid names = All (λ m. m.pid ≡ pid) names

-- The files of a process stay its own.
Does-IsMine :
    (pid : ℕ) (c : Call) (a b : List Name) → IsOwn pid c → Does c a b → IsMine pid a → IsMine pid b
Does-IsMine pid _ _ _ own (opens n sync xs ys l r) h =
    let (left, right) = All-split _ xs ys h in All-append _ xs (n ∷ ys) left (own, right)
Does-IsMine pid _ _ _ own (renames from to xs ys l r) h =
    let (left, right) = All-split _ xs (from ∷ ys) h in
    All-append _ xs (to ∷ ys) left (own.1, right.1)
Does-IsMine pid _ _ _ own (unlinks n xs ys) h =
    let (left, right) = All-split _ xs (n ∷ ys) h in All-append _ xs ys left right.1
Does-IsMine pid _ _ _ own (opens_dir g names) h = h
Does-IsMine pid _ _ _ own (writes n names le) h = h
Does-IsMine pid _ _ _ own (fsyncs names) h = h
Does-IsMine pid _ _ _ own (closes names) h = h
Does-IsMine pid _ _ _ own (fsyncs_dir names) h = h

module _ {kernel : List Call → Call → Bool} {pid : ℕ} where
  History-IsMine :
      {calls : List Call} {names : List Name}
      → History kernel pid limit calls names
      → IsMine pid names
  History-IsMine start = tt
  History-IsMine (next calls call names names' succeeds own h does fits) =
      Does-IsMine pid call names names' own does (History-IsMine h)

  History-fits :
      {calls : List Call} {names : List Name}
      → History kernel pid limit calls names
      → length names ≤ limit
  History-fits start = omega arith
  History-fits (next calls call names names' succeeds own h does fits) = fits

  History-none :
      (calls : List Call) {names : List Name}
      → calls ≡ []
      → History kernel pid limit calls names
      → names ≡ []
  History-none [] e start = refl
  History-none (c ∷ calls) e h = absurd (cc)

-- One of the traces, the latest call first, loses its latest call.
pub data Pick : List (List Call) → Call → List (List Call) → Type 0 where
  here :
      (c : Call) (calls : List Call) (others : List (List Call))
      → Pick ((c ∷ calls) ∷ others) c (calls ∷ others)
  there :
      (c : Call) (calls : List Call) (others others' : List (List Call))
      → Pick others c others'
      → Pick (calls ∷ others) c (calls ∷ others')

-- The calls, the latest first, are those of the traces, each trace in its own order.
pub data Merge : List (List Call) → List Call → Type 0 where
  none_left : (traces : List (List Call)) → All (λ calls. calls ≡ []) traces → Merge traces []
  latest :
      (traces traces' : List (List Call)) (c : Call) (calls : List Call)
      → Pick traces c traces'
      → Merge traces' calls
      → Merge traces (c ∷ calls)

-- The calls lead from no file to these, with at most so many at any time.
pub data Leads (most : ℕ) : List Call → List Name → Type 0 where
  no_calls : Leads most [] []
  call_next :
      (calls : List Call) (c : Call) (names names' : List Name)
      → Leads most calls names
      → Does c names names'
      → length names' ≤ most
      → Leads most (c ∷ calls) names'

-- Processes with these numbers, all different, have these traces and files.
pub data Family : List ℕ → List (List Call) → List Name → Type 0 where
  nobody : Family [] [] []
  member :
      (kernel : List Call → Call → Bool) (pid : ℕ) (calls : List Call) (mine : List Name)
      (pids : List ℕ) (traces : List (List Call)) (names : List Name)
      → History kernel pid limit calls mine
      → All (λ q. q ≢ pid) pids
      → Family pids traces names
      → Family (pid ∷ pids) (calls ∷ traces) (mine ++ names)

Family-pids :
    {pids : List ℕ} {traces : List (List Call)} {names : List Name}
    → Family pids traces names
    → All (λ m. In m.pid pids) names
Family-pids nobody = tt
Family-pids (member kernel pid calls mine pids traces names h other fam) =
    All-append _ mine names (All-mono _ _ mine (λ m e. inl (sym e)) (History-IsMine h))
      (All-mono _ _ names (λ m i. inr i) (Family-pids fam))

Family-fits :
    {pids : List ℕ} {traces : List (List Call)} {names : List Name}
    → Family pids traces names
    → length names ≤ length pids * limit
Family-fits nobody = omega arith
Family-fits (member kernel pid calls mine pids traces names h other fam) =
    omega (arith, History-fits h, Family-fits fam, length-append mine names)

Family-none :
    {pids : List ℕ} {traces : List (List Call)} {names : List Name}
    → All (λ calls. calls ≡ []) traces
    → Family pids traces names
    → names ≡ []
Family-none e nobody = refl
Family-none e (member kernel pid calls mine pids traces names h other fam) =
    rw (History-none calls e.0 h) (Family-none e.1 fam)

-- Before its latest call a process had other files, and nobody else's files were touched.
Family-Pick :
    {pids : List ℕ} {traces traces' : List (List Call)} {c : Call} {names : List Name}
    → Pick traces c traces'
    → Family pids traces names
    → (before : List Name) × Family pids traces' before
      × Does c before names
      × ((q : ℕ) × In q pids × IsOwn q c)
Family-Pick (here c calls others)
      (member kernel pid _ mine pids _ names (next _ _ old _ succeeds own h does fits) other fam) =
    let foreign =
      All-mono _ _ names (λ m i e. All-In (λ q. q ≢ pid) pids other i e) (Family-pids fam) in
    (
      old ++ names,
      member kernel pid calls old pids others names h other fam,
      Does-after pid c old mine names own foreign does,
      (pid, inl refl, own),
    )
Family-Pick (there c calls others others' pick)
      (member kernel pid _ mine pids _ names h other fam) =
    let (before, fam', does, (q, i, own)) = Family-Pick pick fam in
    let apart : q ≢ pid = All-In (λ q. q ≢ pid) pids other i in
    (
      mine ++ before,
      member kernel pid calls mine pids others' before h other fam',
      Does-before q c before names mine own
          (All-mono _ _ mine (λ m e d. apart (sym d ∙ e)) (History-IsMine h)) does,
      (q, inr i, own),
    )

pub Merge-Leads :
    {pids : List ℕ} {traces : List (List Call)} {calls : List Call} {names : List Name}
    → Merge traces calls
    → Family pids traces names
    → Leads (length pids * limit) calls names
Merge-Leads (none_left traces e) fam = rw (Family-none e fam) no_calls
Merge-Leads (latest traces traces' c calls pick rest) fam =
    let (before, fam', does, owner) = Family-Pick pick fam in
    call_next calls c before _ (Merge-Leads rest fam') does (Family-fits fam)
