-- ===== src/Ledger/Keeps.antt =====
-- Calls as chains, and the rules by which the agreement of the files is carried along a chain.
use vibecoding_dofe_ai.Base.{
  ℕ, map, ◌+◌, ◌∙◌, ◌≡◌, refl, Bool, true, false, inl, inr, Bool-cases, if◌then◌else◌, arith,
}
use vibecoding_dofe_ai.Schema.{StateItem, Shard, Detail, is_done}
use vibecoding_dofe_ai.Store.{
  World, Error, Outcome, done, thrown, M, Call, Reply, answer, refusal, ◌>>=◌, ◌>>◌, final, call,
  return, Env, read_detail, tick, is_tripped, trip, enforce_cost_guard,
}
use vibecoding_dofe_ai.Engine.{apply_cost_guard}
use vibecoding_dofe_ai.Ledger.Sound.{ledger, current, IsConsistent, relabel-IsSound}

-- The call keeps the agreement, also where it throws.
abbrev pub Keeps : Env → {A : Type 0} → M A → Type 0
Keeps env m = (w : World) → IsConsistent env w → IsConsistent env ((final (m w)))

-- The agreement at the end of an outcome that goes on.
abbrev pub after : {A B : Type 0} → Outcome A → (A → M B) → Outcome B
after o f = elim o [ done a w ↦ f a w | thrown e w ↦ thrown e w ]

module _ (env : Env) where
  after-IsConsistent :
      {A B : Type 0} (o : Outcome A) (f : A → M B)
      → IsConsistent env ((final o))
      → ((a : A) → Keeps env (f a))
      → IsConsistent env ((final (after o f)))
  after-IsConsistent (done a w) f h k = k a w h
  after-IsConsistent (thrown e w) f h k = h

  pub bind-Keeps :
      {A B : Type 0} (m : M A) (f : A → M B)
      → Keeps env m
      → ((a : A) → Keeps env (f a))
      → Keeps env (m >>= f)
  bind-Keeps m f hm hf w h = after-IsConsistent (m w) f (hm w h) hf

  pub then-IsConsistent :
      {B : Type 0} (o : Outcome (Unit {0})) (k : M B)
      → IsConsistent env ((final o))
      → Keeps env k
      → IsConsistent env ((final (after o (λ _. k))))
  then-IsConsistent (done a w) k h hk = hk w h
  then-IsConsistent (thrown e w) k h hk = h

  pub then-Keeps :
      {B : Type 0} (m : M (Unit {0})) (k : M B) → Keeps env m → Keeps env k → Keeps env (m >> k)
  then-Keeps m k hm hk w h = then-IsConsistent (m w) k (hm w h) hk

  pub return-Keeps : {A : Type 0} (a : A) → Keeps env (return a)
  return-Keeps a w h = h

  replied-IsConsistent :
      {A : Type 0} (r : Reply A) (w : World)
      → IsConsistent env w
      → IsConsistent env ((final {A = A} (elim r [ answer a ↦ done a w | refusal e ↦ thrown e w ])))
  replied-IsConsistent (answer a) w h = h
  replied-IsConsistent (refusal e) w h = h

  pub call-Keeps : {A : Type 0} (c : Call A) → Keeps env (call c)
  call-Keeps c w h = replied-IsConsistent (c w) w h

  pub if-IsConsistent :
      {A : Type 0} (b : Bool) (m n : M A) (w : World)
      → IsConsistent env (final (m w))
      → IsConsistent env (final (n w))
      → IsConsistent env (final ((if b then m else n) w))
  if-IsConsistent true m n w hm hn = hm
  if-IsConsistent false m n w hm hn = hn

-- What the cost guard leaves alone of the state that it is given.
pub record IsSameCount (s t : StateItem) : Type 0 where
  pub total : t.shards_total ≡ s.shards_total
  pub done_count : t.shards_done ≡ s.shards_done
  pub round : t.round ≡ s.round
  pub reloops : t.reloop_count ≡ s.reloop_count
  pub version : t.spec_version ≡ s.spec_version
  pub verdict : t.global_verdict ≡ s.global_verdict
  pub finalized : t.finalized ≡ s.finalized

trip_frame :
    (env : Env) (s : StateItem) (w : World)
    → (t : StateItem) × (v : World) × (trip env s w ≡ done t v)
      × IsSameCount s t
      × (ledger v ≡ ledger w)
unfolding trip
trip_frame env s w = (_, _, refl, ground arith, refl)

enforce_cost_guard_frame :
    (env : Env) (s : StateItem) (w : World)
    → (t : StateItem) × (v : World) × (enforce_cost_guard env s w ≡ done t v)
      × IsSameCount s t
      × (ledger v ≡ ledger w)
unfolding enforce_cost_guard
enforce_cost_guard_frame env s w = elim (Bool-cases (is_tripped env s)) [
  | inl e ↦ rw e (trip_frame env s w)
  | inr e ↦ rw e (s, w, refl, ground arith, refl)
]

-- The cost guard never throws, and changes neither the counts of the state nor the shards.
pub apply_cost_guard_frame :
    (env : Env) (s : StateItem) (calls tokens : ℕ) (w : World)
    → (t : StateItem) × (v : World) × (apply_cost_guard env s calls tokens w ≡ done t v)
      × IsSameCount s t
      × (ledger v ≡ ledger w)
unfolding apply_cost_guard
apply_cost_guard_frame env s calls tokens w =
    let (t, v, e, same, kept) =
      enforce_cost_guard_frame env
        (record s {
          cost_calls = s.cost_calls + calls;
          cost_tokens = s.cost_tokens + tokens;
          updated = env.clock.iso w.ticks;
        })
        (tick w) in
    (t, v, e, ground arith, kept ∙ refl)

-- A chain that goes on behind the cost guard.
pub guard-IsConsistent :
    (env : Env) (s : StateItem) (calls tokens : ℕ) (w : World) {B : Type 0} (f : StateItem → M B)
    → ((t : StateItem) (v : World)
        → IsSameCount s t
        → ledger v ≡ ledger w
        → IsConsistent env ((final (f t v))))
    → IsConsistent env ((final (after (apply_cost_guard env s calls tokens w) f)))
guard-IsConsistent env s calls tokens w f k =
    let (t, v, e, same, kept) = apply_cost_guard_frame env s calls tokens w in
    rw e (k t v same kept)

-- A write that relabels the shards that were read, none of them as DONE.
pub written-IsConsistent :
    (env : Env) (w v : World) (f : Shard → Shard)
    → ((s : Shard) → ((f s).id ≡ s.id) × (is_done (f s).status ≡ true → is_done s.status ≡ true))
    → ledger v ≡ record (ledger w) { shards = map f (current (ledger w)) }
    → IsConsistent env w
    → IsConsistent env v
written-IsConsistent env w v f keep e h = record { sound = rw e (relabel-IsSound f keep h.sound) }

-- A call that changes nothing of the ledger.
pub same-IsConsistent :
    (env : Env) (w v : World) → ledger v ≡ ledger w → IsConsistent env w → IsConsistent env v
same-IsConsistent env w v e h = record { sound = rw e h.sound }

-- A chain that goes on with the reply to a call.
pub reply-IsConsistent :
    (env : Env) {A B : Type 0} (r : Reply A) (f : A → M B) (w : World)
    → IsConsistent env w
    → ((a : A) → IsConsistent env (final (f a w)))
    → IsConsistent env
        (final (after {A = A} {B = B} (elim r [ answer a ↦ done a w | refusal e ↦ thrown e w ]) f))
reply-IsConsistent env (answer a) f w h k = k a
reply-IsConsistent env (refusal e) f w h k = h

-- A call that ends with the detail of the loop as the files are then.
abbrev pub IsFresh : Env → Outcome Detail → Type 0
IsFresh env (done d w) = IsConsistent env w × (d ≡ read_detail w)
IsFresh env (thrown e w) = IsConsistent env w

abbrev pub Refreshes : Env → M Detail → Type 0
Refreshes env m = (w : World) → IsConsistent env w → IsFresh env (m w)

module _ (env : Env) where
  pub fresh-IsConsistent : (o : Outcome Detail) → IsFresh env o → IsConsistent env (final o)
  fresh-IsConsistent (done d w) h = h.0
  fresh-IsConsistent (thrown e w) h = h

  pub then-IsFresh :
      {A : Type 0} (o : Outcome A) (f : A → M Detail)
      → IsConsistent env (final o)
      → ((a : A) → Refreshes env (f a))
      → IsFresh env (after o f)
  then-IsFresh (done a w) f h hf = hf a w h
  then-IsFresh (thrown e w) f h hf = h

  pub if-IsFresh :
      (b : Bool) (m n : M Detail) (w : World)
      → IsFresh env (m w)
      → IsFresh env (n w)
      → IsFresh env ((if b then m else n) w)
  if-IsFresh true m n w hm hn = hm
  if-IsFresh false m n w hm hn = hn

  pub reply-IsFresh :
      {A : Type 0} (r : Reply A) (f : A → M Detail) (w : World)
      → IsConsistent env w
      → ((a : A) → IsFresh env (f a w))
      → IsFresh env (after {A = A} (elim r [ answer a ↦ done a w | refusal e ↦ thrown e w ]) f)
  reply-IsFresh (answer a) f w h k = k a
  reply-IsFresh (refusal e) f w h k = h

  -- A call that leaves the files alone.
  pub quiet-IsFresh :
      {A : Type 0} (o : Outcome A) (f : A → M Detail) (w : World)
      → final o ≡ w
      → IsConsistent env w
      → ((a : A) → IsFresh env (f a w))
      → IsFresh env (after o f)
  quiet-IsFresh (done a v) f w e h k = rw e (k a)
  quiet-IsFresh (thrown x v) f w e h k = rw e h

  pub next-IsFresh :
      (o : Outcome Detail) (f : Detail → M Detail)
      → IsFresh env o
      → ((w : World) → IsConsistent env w → IsFresh env (f (read_detail w) w))
      → IsFresh env (after o f)
  next-IsFresh (done d w) f h k = rw (h.1) (k w h.0)
  next-IsFresh (thrown e w) f h k = h

-- A property of what follows a reply, or the cost guard.
pub reply-cases :
    {A B : Type 0} (P : Outcome B → Type 0) (r : Reply A) (f : A → M B) (w : World)
    → ((e : Error) → P (thrown e w))
    → ((a : A) → r ≡ answer a → P (f a w))
    → P (after {A = A} {B = B} (elim r [ answer a ↦ done a w | refusal e ↦ thrown e w ]) f)
reply-cases P (answer a) f w h k = k a refl
reply-cases P (refusal e) f w h k = h e

pub guard-cases :
    (env : Env) {B : Type 0} (P : Outcome B → Type 0) (s : StateItem) (calls tokens : ℕ) (w : World)
    (f : StateItem → M B)
    → ((t : StateItem) (v : World) → IsSameCount s t → ledger v ≡ ledger w → P (f t v))
    → P (after (apply_cost_guard env s calls tokens w) f)
guard-cases env P s calls tokens w f k =
    let (t, v, e, same, kept) = apply_cost_guard_frame env s calls tokens w in
    rw e (k t v same kept)

-- Calls that leave the files alone.
pub call-quiet : {A : Type 0} (c : Call A) (w : World) → final (call c w) ≡ w
call-quiet {A} c w = go (c w)
  where
    go : (r : Reply A) → final {A = A} (elim r [ answer a ↦ done a w | refusal e ↦ thrown e w ]) ≡ w
    go (answer a) = refl
    go (refusal e) = refl

pub bind-quiet :
    {A B : Type 0} (o : Outcome A) (f : A → M B) (w : World)
    → final o ≡ w
    → ((a : A) → final (f a w) ≡ w)
    → final (after o f) ≡ w
bind-quiet (done a v) f w e k = rw e (k a)
bind-quiet (thrown x v) f w e k = e

-- A chain goes on from the value that a call ends with.
pub after_done :
    {A B : Type 0} {o : Outcome A} (f : A → M B) {a : A} {w : World}
    → o ≡ done a w
    → after o f ≡ f a w
after_done f e = rw e refl

pub call_answer :
    {A : Type 0} (c : Call A) {a : A} (w : World) → c w ≡ answer a → call c w ≡ done a w
call_answer c w e = rw (e, call) refl

-- A chain ends with the exception of its call.
pub after_thrown :
    {A B : Type 0} {o : Outcome A} (f : A → M B) {e : Error} {w : World}
    → o ≡ thrown e w
    → after o f ≡ thrown e w
after_thrown f h = rw h refl

pub call_refusal :
    {A : Type 0} (c : Call A) {e : Error} (w : World) → c w ≡ refusal e → call c w ≡ thrown e w
call_refusal c w h = rw (h, call) refl
