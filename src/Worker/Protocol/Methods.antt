-- ===== src/Worker/Protocol/Methods.antt =====
-- A method call is answered at once or waits for its reply (daemon/scdm-session-worker.c).
use scdm.Prelude.{
  ℕ, suc, ◌≡◌, ◌∙◌, inl, refl, ap, sym, subst, Bool, true, false, not, Option, none, some, List, [],
  ◌∷◌, arith, if◌then◌else◌, ◌==◌, Holds, bind-Holds, if-Holds, weaken-Holds, ◌>>=◌, Bytes,
}
use scdm.SessionSettings.{ActUser, SessionSettings, Notify}
use scdm.Worker.Protocol.Answers.{waiting, Takes}
use scdm.Worker.Protocol.Close.{if-both}
use scdm.Worker.Protocol.Quiet.{Leaves, queue-view, load_settings-Leaves, notify_all-Leaves}
use scdm.Worker.Protocol.{View, view, Follows}
use scdm.Worker.Requests.{
  Detail, with_service, connect_names, wait_or_queue, load_and_queue, set_detail, set_details,
  initialize_for, initialized, set_settings,
}
use scdm.Worker.State.{number, reply, queue_state_change, load_settings, notify_all}
use scdm.Worker.Steps.{
  in_order, refuse, wrong_state_message, validate_with, validate_state_change,
  validate_and_queue_state_change, next_name,
}
use scdm.Worker.Types.{State, failed_with, wrong_state, Reply, completed, Worker, WorkerHost}

-- A request that is granted changes nothing; one that is refused has its reply.
abbrev pub Validated : View → Worker × Bool → Type 0
Validated from r =
    (r.1 ≡ true → (view r.0 ≡ from) × (from.pending ≡ none))
    × (r.1 ≡ false → Takes 1 from (view r.0))

-- Such views follow the protocol as before.
pub replied-Takes :
    (invocation : ℕ) (r : Reply) (w : Worker)
    → Follows (view w)
    → Takes 1 (view w) (view (reply invocation r w))
unfolding reply view
replied-Takes invocation r w h = (h, omega arith, inl refl)

pub pending-Takes :
    (invocation : ℕ) (from : View) (w : Worker)
    → Follows from
    → view w ≡ from
    → from.pending ≡ none
    → Takes 1 from (view (record w { pending_invocation = some invocation }))
unfolding view
pending-Takes invocation from w h e none_waits =
    subst (λ v. Takes 1 from (record v { pending = some invocation })) (sym e)
      (h, omega (arith, ap waiting none_waits), inl refl)

in_order-Validated :
    (invocation : ℕ) (s : State) (w : Worker)
    → Follows (view w)
    → w.pending_invocation ≡ none
    → Validated (view w) (in_order invocation s w)
unfolding in_order
in_order-Validated invocation s w h none_waits = go (suc (number w.state) == number s)
  where
    refused : Worker
    refused = (in_order invocation s w).0

    go :
        (b : Bool)
        → Validated (view w) (
            if b then (w, true) else (
              reply invocation (failed_with wrong_state (wrong_state_message s w.state)) w,
              false,
            ))
    go true = ((λ _. (refl, unfold view in none_waits)), (λ e. cc))
    go false = ((λ e. cc), (λ _. replied-Takes invocation _ w h))

refuse-Validated :
    (invocation : ℕ) (s : State) (name : Option Bytes) (w : Worker)
    → Follows (view w)
    → Holds (Validated (view w)) (refuse invocation s name w)
unfolding refuse
refuse-Validated invocation s none w h = tt
refuse-Validated invocation s (some name) w h = ((λ e. cc), (λ _. replied-Takes invocation _ w h))

pub validate-Validated :
    (invocation : ℕ) (s : State) (w : Worker)
    → Follows (view w)
    → Holds (Validated (view w)) (validate_state_change invocation s w)
unfolding validate_state_change
validate-Validated invocation s w h = go w.pending_invocation refl
  where
    go :
        (p : Option ℕ)
        → w.pending_invocation ≡ p
        → Holds (Validated (view w)) (validate_with p invocation s w)
    go none e = unfold validate_with in in_order-Validated invocation s w h e
    go (some pending) e =
        unfold validate_with in refuse-Validated invocation s (next_name w.state) w h

pub queue-Takes :
    (invocation : ℕ) (s : State) (w : Worker)
    → Follows (view w)
    → Holds (λ x. Takes 1 (view w) (view x)) (validate_and_queue_state_change invocation s w)
unfolding validate_and_queue_state_change
queue-Takes invocation s w h =
    bind-Holds (Validated (view w)) (λ x. Takes 1 (view w) (view x))
      (validate_state_change invocation s w) _ (validate-Validated invocation s w h)
      (λ r k.
        if-both (λ x. Takes 1 (view w) (view x)) r.1 _ _ (λ q. granted r.0 (k.0 q).0 (k.0 q).1)
          (λ q. k.1 q))
  where
    granted :
        (x : Worker)
        → view x ≡ view w
        → (view w).pending ≡ none
        → Takes 1
            (view w)
            (view (queue_state_change (record x { pending_invocation = some invocation })))
    granted x e none_waits =
        subst (Takes 1 (view w))
          (sym (queue-view (record x { pending_invocation = some invocation })))
          (pending-Takes invocation (view w) x h e none_waits)

wait-view : (b : Bool) (w : Worker) → view (wait_or_queue b w) ≡ view w
unfolding wait_or_queue view
wait-view true w = refl
wait-view false w = queue-view w

pub load_and_queue-Leaves :
    (act_user : Bytes → ActUser) (username : Option Bytes) (w : Worker)
    → Leaves (view w) (load_and_queue act_user username w)
unfolding load_and_queue
load_and_queue-Leaves act_user username w =
    bind-Holds (λ r. view r.0 ≡ view w) (λ x. view x ≡ view w) (load_settings act_user username w) _
      (load_settings-Leaves act_user username w) (λ r e. wait-view (not r.1) r.0 ∙ e)

set_detail-view : (d : Detail) (w : Worker) → view (set_detail d w) ≡ view w
unfolding set_detail view
set_detail-view (with_service text) w = refl
set_detail-view _ w = refl

pub set_details-view : (details : List Detail) (w : Worker) → view (set_details details w) ≡ view w
unfolding set_details
set_details-view [] w = refl
set_details-view (detail ∷ rest) w = set_details-view rest (set_detail detail w) ∙ one detail
  where
    one : (d : Detail) → view (set_detail d w) ≡ view w
    one d = set_detail-view d w

pub initialized-Leaves :
    (act_user : Bytes → ActUser) (w : Worker) → Leaves (view w) (initialized act_user w)
unfolding initialized
initialized-Leaves act_user w =
    if-Holds (λ x. view x ≡ view w) w.is_program_session _ _ (λ _. wait-view false w)
      (λ _. by_name w.username)
  where
    by_name :
        (name : Option Bytes) → Leaves (view w) (initialize_for act_user name (connect_names w))
    by_name none = unfold initialize_for connect_names view in wait-view false (connect_names w)
    by_name (some username) =
        unfold initialize_for connect_names view in
        load_and_queue-Leaves act_user (some username) (connect_names w)

-- A granted request that waits with what it sets, and goes on without a change of the view.
module _ (host : WorkerHost) (invocation : ℕ) (w : Worker) (h : Follows (view w)) where
  pub granted-Takes :
      (s : State) (prepare : Worker → Worker) (go : Worker → Option Worker)
      → ((x : Worker) → view (prepare x) ≡ view x)
      → ((x : Worker) → Leaves (view x) (go x))
      → Holds
          (λ x. Takes 1 (view w) (view x))
          (validate_state_change invocation s w >>= λ r.
            if r.1
            then go (record (prepare r.0) { pending_invocation = some invocation })
            else some r.0)
  granted-Takes s prepare go same leaves =
      bind-Holds (Validated (view w)) (λ x. Takes 1 (view w) (view x))
        (validate_state_change invocation s w) _ (validate-Validated invocation s w h)
        (λ r k.
          if-Holds (λ x. Takes 1 (view w) (view x)) r.1 _ _ (λ q. waits r.0 (k.0 q).0 (k.0 q).1)
            (λ q. k.1 q))
    where
      waits :
          (x : Worker)
          → view x ≡ view w
          → (view w).pending ≡ none
          → Holds
              (λ y. Takes 1 (view w) (view y))
              (go (record (prepare x) { pending_invocation = some invocation }))
      waits x e none_waits =
          weaken-Holds
            (λ y. view y ≡ view (record (prepare x) { pending_invocation = some invocation }))
            (λ y. Takes 1 (view w) (view y)) _
            (λ y k.
              subst (Takes 1 (view w)) (sym k)
                (pending-Takes invocation (view w) (prepare x) h (same x ∙ e) none_waits))
            (leaves (record (prepare x) { pending_invocation = some invocation }))

  -- A setter of the settings is answered.
  pub settings-Takes :
      (settings : SessionSettings) (notes : List Notify)
      → Holds
          (λ x. Takes 1 (view w) (view x))
          (set_settings host.act_user invocation (settings, notes) w)
  unfolding set_settings
  settings-Takes settings notes =
      bind-Holds (λ x. view x ≡ view w) (λ x. Takes 1 (view w) (view x))
        (notify_all host.act_user notes (record w { user_settings = settings })) _
        (unfold view in
          notify_all-Leaves host.act_user notes (record w { user_settings = settings }))
        (λ x e.
          subst (λ v. Takes 1 v (view (reply invocation completed x))) e
            (replied-Takes invocation completed x (subst Follows (sym e) h)))
