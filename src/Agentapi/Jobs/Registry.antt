-- ===== src/Agentapi/Jobs/Registry.antt =====
-- What the registry of analyses keeps (agentapi/jobs.go).
use deadlocker.Base.{
  ◌+◌, ◌≤◌, ◌≡◌, refl, sym, ap, ◌∙◌, ltb, Bool, true, false, ◌||◌, Option, none, some, Option-cases,
  Bool-cases, inl, inr, List, [], ◌∷◌, ◌++◌, Bytes, length, length-append, map, bytes_eq,
  bytes_eq_iff, if◌then◌else◌, arith,
}
use deadlocker.Agentapi.Jobs.{
  Job, Jobs, new_jobs, find_job, delete_job, set_job, trim_jobs, put, listed, all, get, update,
}

-- A write from outside: a new job, or a change of a job that keeps its id.
pub data JobCall : Type 0 where
  puts : Job → JobCall
  updates : Bytes → (Job → Job) → JobCall

unfoldable pub job_call : Jobs → JobCall → Jobs
job_call j (puts job) = put j job
job_call j (updates id fn) = update j id fn

unfoldable pub job_calls : Jobs → List JobCall → Jobs
job_calls j [] = j
job_calls j (c ∷ cs) = job_calls (job_call j c) cs

-- An update's function leaves the id alone.
abbrev pub KeepsId : JobCall → Type 0
KeepsId (puts _) = Unit
KeepsId (updates _ fn) = (job : Job) → (fn job).id ≡ job.id

abbrev pub AllKeepId : List JobCall → Type 0
AllKeepId [] = Unit
AllKeepId (c ∷ cs) = KeepsId c × AllKeepId cs

abbrev pub has : List Bytes → Bytes → Bool
has [] k = false
has (x ∷ xs) k = bytes_eq x k || has xs k

abbrev pub AreDistinct : List Bytes → Type 0
AreDistinct [] = Unit
AreDistinct (x ∷ xs) = (has xs x ≡ false) × AreDistinct xs

abbrev is_some : Option Job → Bool
is_some none = false
is_some (some _) = true

-- The order has every job once, under the job's own id, and no more jobs than are kept.
pub record IsOrdered (j : Jobs) : Type 0 where
  pub bounded : length j.order ≤ 40
  pub distinct : AreDistinct j.order
  pub known : (k : Bytes) → has j.order k ≡ is_some (find_job j.jobs k)
  pub own_id : (k : Bytes) (job : Job) → find_job j.jobs k ≡ some job → job.id ≡ k

find-delete :
    (m : List (Bytes × Job)) (k i : Bytes)
    → find_job (delete_job m k) i ≡ (if bytes_eq k i then none else find_job m i)
unfolding find_job delete_job
find-delete [] k i = ground arith
find-delete ((j, job) ∷ m) k i =
    ground (arith, find-delete m k i, bytes_eq_iff j k, bytes_eq_iff j i, bytes_eq_iff k i)

find-set :
    (m : List (Bytes × Job)) (k i : Bytes) (job : Job)
    → find_job (set_job m k job) i ≡ (if bytes_eq k i then some job else find_job m i)
unfolding find_job set_job
find-set m k i job = ground (arith, find-delete m k i)

abbrev pub IsKnown : Bytes → Jobs → Type 0
IsKnown id jobs = (job : Job) × (get jobs id ≡ some job)

-- An update reaches the job that stands under the id.
pub get-update :
    (jobs : Jobs) (id : Bytes) (fn : Job → Job) (job : Job)
    → get jobs id ≡ some job
    → get (update jobs id fn) id ≡ some (fn job)
unfolding get update
get-update jobs id fn job found =
    ground (arith, found, find-set jobs.jobs id id (fn job), bytes_eq_iff id id)

pub update-IsKnown :
    (jobs : Jobs) (id : Bytes) (fn : Job → Job) → IsKnown id jobs → IsKnown id (update jobs id fn)
update-IsKnown jobs id fn (job, found) = (fn job, get-update jobs id fn job found)

has-append : (xs : List Bytes) (y k : Bytes) → has (xs ++ (y ∷ [])) k ≡ (has xs k || bytes_eq y k)
has-append [] y k = ground arith
has-append (x ∷ xs) y k = ground (arith, has-append xs y k)

distinct-append :
    (xs : List Bytes) (y : Bytes) → AreDistinct xs → has xs y ≡ false → AreDistinct (xs ++ (y ∷ []))
distinct-append [] y d h = (refl, tt)
distinct-append (x ∷ xs) y (fresh, d) h = (
  ground (arith, has-append xs y x, bytes_eq_iff x y, bytes_eq_iff y x),
  distinct-append xs y d (ground arith),
)

-- A write under an id that is known already.
set-IsOrdered :
    (j : Jobs) (k : Bytes) (job old : Job)
    → IsOrdered j
    → find_job j.jobs k ≡ some old
    → job.id ≡ k
    → IsOrdered (record j { jobs = set_job j.jobs k job })
set-IsOrdered j k job old o found own = record {
  bounded = o.bounded;
  distinct = o.distinct;
  known = λ i. ground (
    arith,
    o.known i,
    find-set j.jobs k i job,
    bytes_eq_iff k i,
    ap (find_job j.jobs) {x = k} {y = i},
  );
  own_id = λ i other e. ground (arith, o.own_id i other, find-set j.jobs k i job, bytes_eq_iff k i);
}

-- Where there is room, a new job goes last.
append-IsOrdered :
    (m : List (Bytes × Job)) (order : List Bytes) (job : Job)
    → IsOrdered (record { jobs = m; order = order })
    → length order + 1 ≤ 40
    → find_job m job.id ≡ none
    → IsOrdered (record { jobs = set_job m job.id job; order = order ++ (job.id ∷ []) })
append-IsOrdered m order job o room new = record {
  bounded = omega (arith, length-append order (job.id ∷ []));
  distinct = distinct-append order job.id o.distinct (ground (arith, o.known job.id));
  known = λ i.
      ground (
        arith,
        o.known i,
        has-append order job.id i,
        find-set m job.id i job,
        bytes_eq_iff job.id i,
      );
  own_id =
      λ i other e. ground (arith, o.own_id i other, find-set m job.id i job, bytes_eq_iff job.id i);
}

-- The oldest job can go.
tail-IsOrdered :
    (m : List (Bytes × Job)) (oldest : Bytes) (rest : List Bytes)
    → IsOrdered (record { jobs = m; order = oldest ∷ rest })
    → IsOrdered (record { jobs = delete_job m oldest; order = rest })
tail-IsOrdered m oldest rest o = record {
  bounded = omega (arith, o.bounded);
  distinct = o.distinct.1;
  known =
      λ i. ground (arith, o.known i, o.distinct.0, find-delete m oldest i, bytes_eq_iff oldest i);
  own_id =
      λ i other e. ground (arith, o.own_id i other, find-delete m oldest i, bytes_eq_iff oldest i);
}

-- A new job, whether or not the oldest must go for it.
add-IsOrdered :
    (m : List (Bytes × Job)) (order : List Bytes) (job : Job)
    → IsOrdered (record { jobs = m; order = order })
    → find_job m job.id ≡ none
    → let t = trim_jobs m (order ++ (job.id ∷ [])) in
      IsOrdered (record t { jobs = set_job t.jobs job.id job })
unfolding trim_jobs
add-IsOrdered m [] job o new = append-IsOrdered m [] job o (omega arith) new
add-IsOrdered m (oldest ∷ rest) job o new =
    let n = length-append rest (job.id ∷ []) in
    elim (Bool-cases (ltb 40 (length (oldest ∷ rest ++ (job.id ∷ []))))) [
      | inl full ↦ rw full (
          append-IsOrdered (delete_job m oldest) rest job (tail-IsOrdered m oldest rest o)
            (omega (arith, o.bounded)) (ground (arith, find-delete m oldest job.id)))
      | inr room ↦ rw room (append-IsOrdered m (oldest ∷ rest) job o (ground (arith, n)) new)
    ]

put-IsOrdered : (j : Jobs) (job : Job) → IsOrdered j → IsOrdered (put j job)
unfolding put
put-IsOrdered j job o = elim (Option-cases (find_job j.jobs job.id)) [
  | inl new ↦ rw (new, put) (add-IsOrdered j.jobs j.order job o new)
  | inr (old, found) ↦ rw (found, put) (set-IsOrdered j job.id job old o found refl)
]

update-IsOrdered :
    (j : Jobs) (id : Bytes) (fn : Job → Job)
    → KeepsId (updates id fn)
    → IsOrdered j
    → IsOrdered (update j id fn)
unfolding update
update-IsOrdered j id fn keeps o = elim (Option-cases (find_job j.jobs id)) [
  | inl absent ↦ rw (absent, update) o
  | inr (job, found) ↦
      rw (found, update)
        (set-IsOrdered j id (fn job) job o found (keeps job ∙ o.own_id id job found))
]

calls-IsOrdered :
    (j : Jobs) (cs : List JobCall) → AllKeepId cs → IsOrdered j → IsOrdered (job_calls j cs)
unfolding job_calls job_call
calls-IsOrdered j [] keep o = o
calls-IsOrdered j (puts job ∷ cs) (_, keep) o =
    calls-IsOrdered (put j job) cs keep (put-IsOrdered j job o)
calls-IsOrdered j (updates id fn ∷ cs) (k, keep) o =
    calls-IsOrdered (update j id fn) cs keep (update-IsOrdered j id fn k o)

new_jobs-IsOrdered : IsOrdered new_jobs
unfolding new_jobs find_job
new_jobs-IsOrdered = record {
  bounded = omega arith;
  distinct = tt;
  known = λ k. refl;
  own_id = λ k job e. cc;
}

abbrev pub ids : List Job → List Bytes
ids = map (λ job. job.id)

map-append : (xs : List Job) (y : Job) → ids (xs ++ (y ∷ [])) ≡ ids xs ++ (y.id ∷ [])
map-append [] y = refl
map-append (x ∷ xs) y = ap (◌∷◌ x.id) (map-append xs y)

-- The ids in the reverse order.
abbrev pub backwards : List Bytes → List Bytes
backwards [] = []
backwards (x ∷ xs) = backwards xs ++ (x ∷ [])

ids-listed :
    (m : List (Bytes × Job)) (order : List Bytes)
    → ((k : Bytes) → has order k ≡ true → is_some (find_job m k) ≡ true)
    → ((k : Bytes) (job : Job) → find_job m k ≡ some job → job.id ≡ k)
    → ids (listed m order) ≡ backwards order
unfolding listed
ids-listed m [] known own = refl
ids-listed m (x ∷ xs) known own =
    let later = ids-listed m xs (λ k h. known k (ground (arith, h))) own in
    elim (Option-cases (find_job m x)) [
      | inl absent ↦ absurd (ground (arith, known x, bytes_eq_iff x x))
      | inr (job, found) ↦
          ground (arith, found, map-append (listed m xs) job, later, own x job found)
    ]

-- After any number of additions and updates that keep a job's id, the registry holds at most 40 jobs,
-- each once; every job stands under its own id; what is listed is exactly the jobs of the order, newest
-- first; and a job can be looked up exactly when its id is in that order.
pub job_calls-IsOrdered :
    (cs : List JobCall)
    → AllKeepId cs
    → let j = job_calls new_jobs cs in IsOrdered j × (ids (all j) ≡ backwards j.order)
unfolding all
job_calls-IsOrdered cs keep =
    let j = job_calls new_jobs cs in
    let o = calls-IsOrdered new_jobs cs keep new_jobs-IsOrdered in
    (o, ids-listed j.jobs j.order (λ k h. sym (o.known k) ∙ h) o.own_id)
