-- ===== src/Discovery/Waits.antt =====
-- The sends of discover.rs over its bounded channel, against the reference where none waits.
use flare_server_core.Prelude.{
  ℕ, ◌+◌, ◌<◌, ◌≤◌, ltb, length, length-append, ◌≡◌, ◌≢◌, ◌↔◌, refl, sym, ap, subst, ◌∙◌, Bool,
  true, false, Option, none, some, String, List, [], ◌∷◌, ◌++◌, ok, err, StringMap, get, keys,
  contains_key, if◌then◌else◌, arith, Bool-cases, Option-cases, inl, inr,
}
use flare_server_core.Discovery.Instance.{ServiceInstance, to_grpc_uri, instance_eq}
use flare_server_core.Discovery
use flare_server_core.Discovery.Unbounded
use flare_server_core.Discovery.{
  Sender, Discover, Change, Iterate, Answer, ◌>>=◌, send, cached_or_new, cache_new,
  create_channel_service, record_instance, forget_instance, collect_from,
}

-- A receiver that goes on: a send finds room, then or later.
abbrev pub GoesOn : Sender → Type 0
GoesOn tx = (k : ℕ) → k < tx.received k + tx.buffer

-- A call returns what the reference gives, if it returns, and it does where the receiver goes on.
abbrev pub Sends : Sender → {A : Type 0} → Option A → A → Type 0
Sends tx {A} o x = (GoesOn tx → o ≡ some x) × ((y : A) → o ≡ some y → y ≡ x)

bind-Sends :
    {A B : Type 0} (tx : Sender) (o : Option A) (f : A → Option B) (x : A) (z : B)
    → Sends tx o x
    → Sends tx (f x) z
    → Sends tx (o >>= f) z
bind-Sends tx none f x z ho hf = (λ on. absurd (let e = ho.0 on in cc), λ y e. absurd (cc))
bind-Sends tx (some a) f x z ho hf =
    let same : a ≡ x = ho.1 a refl in
    (λ on. ap f same ∙ hf.0 on, λ y e. hf.1 y (ap f (sym same) ∙ e))

some-Sends : {A : Type 0} (tx : Sender) (x : A) → Sends tx (some x) x
some-Sends tx x = (λ on. refl, λ y e. cc)

module _ {C : Type 0} (tx : Sender) where
  send-Sends :
      (s : Discover C) (c : Change C)
      → Sends tx (send tx s c) (record s { sent = s.sent ++ c ∷ [] })
  unfolding send
  send-Sends s c =
      elim (Bool-cases (ltb (length s.sent) (tx.received (length s.sent) + tx.buffer))) [
        | inl room ↦ rw room (some-Sends tx _)
        | inr full ↦ rw full (
          λ on. absurd (let more = on (length s.sent) in ground (arith, full, more)),
          λ y e. absurd (cc),
        )
      ]

  if-Sends :
      (b : Bool) (o p : Option (Discover C)) (x y : Discover C)
      → Sends tx o x
      → Sends tx p y
      → Sends tx (if b then o else p) (if b then x else y)
  if-Sends true o p x y ho hp = ho
  if-Sends false o p x y ho hp = hp

  updater_insert-Sends :
      (s : Discover C) (key : String) (c : C)
      → Sends tx (Discovery.updater_insert tx s key c) (Unbounded.updater_insert s key c)
  unfolding Discovery.updater_insert Unbounded.updater_insert
  updater_insert-Sends s key c = send-Sends _ _

  updater_remove-Sends :
      (s : Discover C) (key : String)
      → Sends tx (Discovery.updater_remove tx s key) (Unbounded.updater_remove s key)
  unfolding Discovery.updater_remove Unbounded.updater_remove
  updater_remove-Sends s key = send-Sends _ _

  create_and_insert-Sends :
      (connect : String → Option C) (s : Discover C) (id : String) (i : ServiceInstance)
      → Sends tx
          (Discovery.create_and_insert tx connect s id i)
          (Unbounded.create_and_insert connect s id i)
  unfolding Discovery.create_and_insert Unbounded.create_and_insert Discovery.insert_created
      Unbounded.insert_created
  create_and_insert-Sends connect s id i =
      created (create_channel_service connect s i).0 (create_channel_service connect s i).1
    where
      created :
          (s1 : Discover C) (o : Option C)
          → Sends tx (Discovery.insert_created tx id s1 o) (Unbounded.insert_created id s1 o)
      created s1 none = some-Sends tx s1
      created s1 (some c) = updater_insert-Sends s1 id c

  refresh_entry-Sends :
      (connect : String → Option C) (s : Discover C) (id : String) (i : ServiceInstance)
      (entry : Option ServiceInstance)
      → Sends tx
          (Discovery.refresh_entry tx connect s id i entry)
          (Unbounded.refresh_entry connect s id i entry)
  unfolding Discovery.refresh_entry Unbounded.refresh_entry
  refresh_entry-Sends connect s id i none =
      bind-Sends tx _ _ _ _ (create_and_insert-Sends connect s id i) (some-Sends tx _)
  refresh_entry-Sends connect s id i (some old) =
      if-Sends (instance_eq old i) _ _ _ _ (some-Sends tx s) (
        bind-Sends tx _ _ _ _ (updater_remove-Sends s id)
          (bind-Sends tx _ _ _ _ (create_and_insert-Sends connect _ id i) (some-Sends tx _)))

  refresh_each-Sends :
      (connect : String → Option C) (s : Discover C) (m : StringMap ServiceInstance)
      → Sends tx (Discovery.refresh_each tx connect s m) (Unbounded.refresh_each connect s m)
  unfolding Discovery.refresh_each Unbounded.refresh_each Discovery.refresh_one
      Unbounded.refresh_one
  refresh_each-Sends connect s [] = some-Sends tx s
  refresh_each-Sends connect s ((id, i) ∷ m) =
      bind-Sends tx _ _ _ _ (refresh_entry-Sends connect s id i (get id s.instances))
        (refresh_each-Sends connect (Unbounded.refresh_one connect s id i) m)

  remove_missing-Sends :
      (answer : StringMap ServiceInstance) (s : Discover C) (ids : List String)
      → Sends tx (Discovery.remove_missing tx answer s ids) (Unbounded.remove_missing answer s ids)
  unfolding Discovery.remove_missing Unbounded.remove_missing
  remove_missing-Sends answer s [] = some-Sends tx s
  remove_missing-Sends answer s (id ∷ ids) =
      if-Sends (contains_key id answer) _ _ _ _ (remove_missing-Sends answer s ids) (
        bind-Sends tx _ _ _ _ (updater_remove-Sends s id)
          (remove_missing-Sends answer (forget_instance (Unbounded.updater_remove s id) id) ids))

  refresh-Sends :
      (connect : String → Option C) (iterate : Iterate) (s : Discover C) (a : Answer)
      → Sends tx (Discovery.refresh tx connect iterate s a) (Unbounded.refresh connect iterate s a)
  unfolding Discovery.refresh Unbounded.refresh
  refresh-Sends connect iterate s (err e) = some-Sends tx s
  refresh-Sends connect iterate s (ok found) =
      let answer = collect_from found [] in
      let s1 = Unbounded.refresh_each connect s (iterate answer) in
      bind-Sends tx _ (λ s1. Discovery.remove_missing tx answer s1 (keys (iterate s1.instances))) s1
        _ (refresh_each-Sends connect s (iterate answer))
        (remove_missing-Sends answer s1 (keys (iterate s1.instances)))

  -- The turns of the refresh loop.
  pub refresh_all-Sends :
      (connect : String → Option C) (iterate : Iterate) (s : Discover C) (turns : List Answer)
      → Sends tx
          (Discovery.refresh_all tx connect iterate s turns)
          (Unbounded.refresh_all connect iterate s turns)
  unfolding Discovery.refresh_all Unbounded.refresh_all
  refresh_all-Sends connect iterate s [] = some-Sends tx s
  refresh_all-Sends connect iterate s (a ∷ rest) =
      bind-Sends tx _ _ _ _ (refresh-Sends connect iterate s a)
        (refresh_all-Sends connect iterate (Unbounded.refresh connect iterate s a) rest)

  first_one-Sends :
      (i : ServiceInstance) (s : Discover C) (o : Option C)
      → Sends tx (Discovery.first_one tx i s o) (Unbounded.first_one i s o)
  unfolding Discovery.first_one Unbounded.first_one
  first_one-Sends i s none = some-Sends tx s
  first_one-Sends i s (some c) =
      bind-Sends tx _ _ _ _ (updater_insert-Sends s i.instance_id c) (some-Sends tx _)

  first_each-Sends :
      (connect : String → Option C) (s : Discover C) (found : List ServiceInstance)
      → Sends tx (Discovery.first_each tx connect s found) (Unbounded.first_each connect s found)
  unfolding Discovery.first_each Unbounded.first_each
  first_each-Sends connect s [] = some-Sends tx s
  first_each-Sends connect s (i ∷ rest) =
      let r = create_channel_service connect s i in
      bind-Sends tx _ (λ s2. Discovery.first_each tx connect s2 rest)
        (Unbounded.first_one i r.0 r.1) _ (first_one-Sends i r.0 r.1)
        (first_each-Sends connect (Unbounded.first_one i r.0 r.1) rest)

-- Nobody receives while the first answer is taken.
pub from_backend-same :
    {C : Type 0} (connect : String → Option C) (first : Answer) (s : Discover C)
    → Discovery.from_backend connect first ≡ some s
    → s ≡ Unbounded.from_backend connect first
unfolding Discovery.from_backend Unbounded.from_backend Discovery.new_internal
from_backend-same connect (err e) s same = cc
from_backend-same connect (ok found) s same =
    (first_each-Sends (record { buffer = 16; received = λ k. 0 }) connect Discovery.empty found).1 s
      same

abbrev pub instance_count : Answer → ℕ
instance_count (err e) = 0
instance_count (ok found) = length found

-- Where the address is accepted, there is a channel, and nothing is sent for it yet.
create_channel_service-some :
    {C : Type 0} (connect : String → Option C) (s : Discover C) (i : ServiceInstance)
    → ((uri : String) → connect uri ≢ none)
    → (s1 : Discover C) × (c : C) × (create_channel_service connect s i ≡ (s1, some c))
      × (s1.sent ≡ s.sent)
unfolding create_channel_service cached_or_new cache_new
create_channel_service-some connect s i reach =
    elim (Option-cases (get i.instance_id s.channel_cache)) [
      | inl missing ↦ elim (Option-cases (connect (to_grpc_uri i))) [
        | inl refused ↦ absurd (reach (to_grpc_uri i) refused)
        | inr (c, there) ↦ (
          _,
          c,
          ap (cached_or_new connect s i) missing ∙ ap (cache_new s i.instance_id) there,
          refl,
        )
      ]
      | inr (c, cached) ↦ (s, c, ap (cached_or_new connect s i) cached, refl)
    ]

-- While the first answer is taken, the log has room for what is left of it, or the call does not
-- return.
first_each-room :
    {C : Type 0} (connect : String → Option C) (s : Discover C) (found : List ServiceInstance)
    → ((uri : String) → connect uri ≢ none)
    → length s.sent ≤ 16
    → (Discovery.first_each (record { buffer = 16; received = λ k. 0 }) connect s found ≢ none)
      ↔ (length s.sent + length found ≤ 16)
unfolding Discovery.first_each Discovery.first_one Discovery.updater_insert send
    Unbounded.updater_insert record_instance
first_each-room connect s [] reach below = (λ n. omega (arith, below), λ b e. absurd (cc))
first_each-room {C} connect s (i ∷ rest) reach below =
    let (s1, c, created, same) = create_channel_service-some connect s i reach in
    subst (λ r. Room (go r)) (sym created)
      (sent s1 c same (λ s2. first_each-room connect s2 rest reach))
  where
    tx : Sender
    tx = record { buffer = 16; received = λ k. 0 }

    go : Discover C × Option C → Option (Discover C)
    go r = Discovery.first_one tx i r.0 r.1 >>= λ s2. Discovery.first_each tx connect s2 rest

    Room : Option (Discover C) → Type 0
    Room o = (o ≢ none) ↔ (length s.sent + length (i ∷ rest) ≤ 16)

    sent :
        (s1 : Discover C) (c : C)
        → s1.sent ≡ s.sent
        → ((s2 : Discover C)
            → length s2.sent ≤ 16
            → (Discovery.first_each tx connect s2 rest ≢ none)
              ↔ (length s2.sent + length rest ≤ 16))
        → Room (go (s1, some c))
    sent s1 c same later = elim (Bool-cases (ltb (length s1.sent) (0 + 16))) [
      | inl room ↦
          let grown = length-append s1.sent (Discovery.inserted i.instance_id c ∷ []) in
          let s2 : Discover C =
            record_instance (Unbounded.updater_insert s1 i.instance_id c) i.instance_id i in
          let (to, from) = later s2 (ground (arith, room, grown)) in
          rw room (
            λ n. omega (arith, to n, grown, ap length same),
            λ b. from (omega (arith, b, grown, ap length same)),
          )
      | inr full ↦ rw full (λ n. absurd (n refl), λ b e. ground (arith, full, ap length same))
    ]

-- Where every address is accepted, `from_backend` returns exactly where the first answer has no more
-- instances than the channel to the balancer has places, 16: nobody receives before it returns. An
-- error of the backend is no answer, and it returns.
pub from_backend_iff :
    {C : Type 0} (connect : String → Option C) (first : Answer)
    → ((uri : String) → connect uri ≢ none)
    → (Discovery.from_backend connect first ≢ none) ↔ (instance_count first ≤ 16)
unfolding Discovery.from_backend Discovery.new_internal
from_backend_iff connect (err e) reach = (λ n. omega arith, λ b e. absurd (cc))
from_backend_iff connect (ok found) reach =
    let (to, from) = first_each-room connect Discovery.empty found reach (omega arith) in
    (λ n. omega (arith, to n), λ b. from (omega arith))
