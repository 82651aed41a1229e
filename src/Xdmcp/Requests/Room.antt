-- ===== src/Xdmcp/Requests/Room.antt =====
-- How many displays pass a test after a REQUEST: daemon/scdm-xdmcp-display-factory.c.
use scdm.Address.{Address}
use scdm.Display.Setup.{prepare}
use scdm.Display.{Display, DisplayKind, xdmcp_display, xdmcp_chooser_display}
use scdm.DisplayStore
use scdm.DisplayStore.Counting.{count_of, count_of-add_le}
use scdm.Prelude.{
  ℕ, suc, ◌+◌, ◌≤◌, ◌≡◌, ◌∙◌, refl, Bool, true, false, Option, none, some, List, [], ◌∷◌, ap, arith,
  if◌then◌else◌, Bytes, ◌>>=◌,
}
use scdm.Xdmcp.Displays.{
  display_create, choose_kind, store_prepared, get_next_session_serial, display_new,
  xdmcp_display_class,
}
use scdm.Xdmcp.Displays.Serials.{AllSerialOk, get_next_session_serial-AllSerialOk}
use scdm.Xdmcp.Forward.{forward_query_lookup, forward_query_destroy, lookup_queries}
use scdm.Xdmcp.Indirect.{indirect_client_lookup, lookup_clients, indirect_client_destroy}
use scdm.Xdmcp.Managed.{send_managed_forward}
use scdm.Xdmcp.Requests.{accept_created, accept_cookie, send_decline, resolve_forward}
use scdm.Xdmcp.Send.{send_accept, really_send_managed_forward}
use scdm.Xdmcp.Types.{Factory, ForwardQuery, Host, IndirectClient, flush}

either_store :
    {A : Type 0} (b : Bool) (x y : A × Factory) (store : DisplayStore.Store Display)
    → x.1.store ≡ store
    → y.1.store ≡ store
    → (if b then x else y).1.store ≡ store
either_store true x y store h k = h
either_store false x y store h k = k

lookup_queries_store :
    (host : Host) (address : Address) (qs : List ForwardQuery) (factory : Factory)
    → (lookup_queries host address qs factory).1.store ≡ factory.store
unfolding lookup_queries forward_query_destroy
lookup_queries_store host address [] factory = refl
lookup_queries_store host address (q ∷ rest) factory =
    either_store _ _ _ factory.store refl (lookup_queries_store host address rest _ ∙ destroyed _)
  where
    destroyed :
        (b : Bool) → (if b then forward_query_destroy q factory else factory).store ≡ factory.store
    destroyed true = refl
    destroyed false = refl

lookup_clients_store :
    (host : Host) (address : Address) (ics : List IndirectClient) (factory : Factory)
    → (lookup_clients host address ics factory).1.store ≡ factory.store
unfolding lookup_clients indirect_client_destroy
lookup_clients_store host address [] factory = refl
lookup_clients_store host address (ic ∷ rest) factory =
    either_store _ _ _ factory.store refl (lookup_clients_store host address rest _ ∙ destroyed _)
  where
    destroyed :
        (b : Bool)
        → (if b then indirect_client_destroy ic factory else factory).store ≡ factory.store
    destroyed true = refl
    destroyed false = refl

resolve_forward_store :
    (address : Address) (found : Option ForwardQuery) (factory : Factory)
    → (resolve_forward address (found, factory)).store ≡ factory.store
unfolding resolve_forward forward_query_destroy send_managed_forward really_send_managed_forward
    flush
resolve_forward_store address none factory = refl
resolve_forward_store address (some fq) factory = refl

pub send_decline_store :
    (host : Host) (address : Address) (reason : Bytes) (factory : Factory)
    → (send_decline host address reason factory).store ≡ factory.store
unfolding send_decline forward_query_lookup flush
send_decline_store host address reason factory =
    resolve_forward_store address _ _ ∙ lookup_queries_store host address factory.forward_queries _

choose_kind_store :
    (host : Host) (address : Address) (factory : Factory)
    → (choose_kind host address factory).1.store ≡ factory.store
unfolding choose_kind indirect_client_lookup
choose_kind_store host address factory =
    either_store factory.honor_indirect _ _ factory.store
      (lookup_clients_store host address factory.indirect_clients factory) refl

-- At most `n` displays pass a test in the result, if there is one.
module _ (p : Display → Bool) (n : ℕ) where
  unfoldable pub AtMost : Option Factory → Type 0
  AtMost none = Unit
  AtMost (some factory) = count_of p factory.store ≤ n

  unfoldable pub CreatedAtMost : Option (Option Display × Factory) → Type 0
  CreatedAtMost none = Unit
  CreatedAtMost (some (created, factory)) = count_of p factory.store ≤ n

  pub if-AtMost :
      (b : Bool) (x y : Option Factory)
      → (b ≡ true → AtMost x)
      → (b ≡ false → AtMost y)
      → AtMost (if b then x else y)
  if-AtMost true x y h k = h refl
  if-AtMost false x y h k = k refl

  pub AtMost-some :
      (result : Option Factory) (factory : Factory)
      → AtMost result
      → result ≡ some factory
      → count_of p factory.store ≤ n
  unfolding AtMost
  AtMost-some result factory h e = rw e at h

  pub some-AtMost : (factory : Factory) → count_of p factory.store ≤ n → AtMost (some factory)
  unfolding AtMost
  some-AtMost factory h = h

  store_prepared-AtMost :
      (result : Display × Bool) (factory : Factory)
      → count_of p factory.store + 1 ≤ n
      → CreatedAtMost (some (store_prepared result factory))
  unfolding store_prepared CreatedAtMost
  store_prepared-AtMost (d, false) factory room = omega arith
  store_prepared-AtMost (d, true) factory room =
      ground (arith, count_of-add_le p d.id d factory.store, room)

  pub display_create-AtMost :
      (host : Host) (hostname : Bytes) (address : Address) (displaynum : ℕ) (factory : Factory)
      → count_of p factory.store + 1 ≤ n
      → CreatedAtMost (display_create host hostname address displaynum factory)
  unfolding display_create AllSerialOk
  display_create-AtMost host hostname address displaynum factory room =
      numbered (get_next_session_serial host.random chosen.1)
        (get_next_session_serial-AllSerialOk host.random chosen.1)
    where
      chosen : Bool × Factory
      chosen = choose_kind host address factory

      kind : DisplayKind
      kind = if chosen.0 then xdmcp_chooser_display else xdmcp_display

      stored :
          (f : Factory) (result : Option (Display × Bool))
          → f.store ≡ factory.store
          → CreatedAtMost (do r ← result; some (store_prepared r f))
      stored f none e = unfold CreatedAtMost in tt
      stored f (some r) e = store_prepared-AtMost r f (rw e room)

      numbered :
          (taken : Option (ℕ × Factory))
          → AllSerialOk chosen.1 taken
          → CreatedAtMost (do
            (session_number, serial_taken) ← taken
            let allocated = record serial_taken { next_pointer = suc serial_taken.next_pointer }
            let display =
                display_new host kind serial_taken.next_pointer hostname displaynum address
                  session_number
            result ← prepare host.setup (xdmcp_display_class host.xauth) display
            some (store_prepared result allocated))
      numbered none k = unfold CreatedAtMost in tt
      numbered (some (serial, after)) k =
          stored (record after { next_pointer = suc after.next_pointer }) _
            (ap (λ f. f.store) k.1.1 ∙ choose_kind_store host address factory)

  pub accept_created-AtMost :
      (address : Address) (created : Option Display) (factory : Factory)
      → count_of p factory.store ≤ n
      → AtMost (accept_created address (created, factory))
  unfolding accept_created AtMost
  accept_created-AtMost address none factory h = h
  accept_created-AtMost address (some display) factory h = go display.x11_cookie
    where
      go :
          (cookie : Option Bytes)
          → AtMost (accept_cookie address display.session_number cookie factory)
      go none = unfold AtMost accept_cookie in tt
      go (some cookie) = unfold AtMost accept_cookie send_accept flush in h
