-- ===== src/Xdmcp/Indirect/Laws.antt =====
-- Laws of the table of indirect clients, daemon/scdm-xdmcp-display-factory.c.
use scdm.Address.{Address, get_family_type}
use scdm.Prelude.{
  ℕ, suc, ◌≡◌, refl, true, Option, none, some, List, [], ◌∷◌, arith, find, All, Bytes, ==_refl, ◌⊎◌,
  inl, inr,
}
use scdm.Xdmcp.Indirect.{
  indirect_client_create, indirect_client_destroy, indirect_client_lookup, lookup_clients,
  indirect_client_lookup_by_chosen, on_hostname_selected, remove_client, set_choice, select,
}
use scdm.Xdmcp.Types.{Factory, IndirectClient, Host, same_address, xdm_udp_port}

abbrev pub Untimed : List IndirectClient → Type 0
Untimed = All (λ ic. ic.acctime ≡ 0)

lookup_clients-Untimed :
    (host : Host) (address : Address) (ics : List IndirectClient) (factory : Factory)
    → Untimed ics
    → lookup_clients host address ics factory
      ≡ (find (λ ic. same_address host ic.dsp_address address) ics, factory)
unfolding lookup_clients
lookup_clients-Untimed host address [] factory h = refl
lookup_clients-Untimed host address (ic ∷ rest) factory h =
    ground (arith, h, lookup_clients-Untimed host address rest factory h.1)

-- With no times in the table an indirect client is never out of date: a lookup finds the first
-- client at the address and leaves the factory as it was, whatever the waiting time is.
pub indirect_client_lookup_never_expires :
    (host : Host) (address : Address) (factory : Factory)
    → Untimed factory.indirect_clients
    → indirect_client_lookup host address factory
      ≡ (find (λ ic. same_address host ic.dsp_address address) factory.indirect_clients, factory)
unfolding indirect_client_lookup
indirect_client_lookup_never_expires host address factory h =
    lookup_clients-Untimed host address factory.indirect_clients factory h

-- A client that was just created and whose user picks a host that resolves is then found under that
-- host and its own address; destroying it leaves the table that was there before.
pub indirect_client_choice :
    (host : Host) (address chosen : Address) (host_bytes : Bytes) (factory : Factory)
    → same_address host address address ≡ true
    → same_address host chosen chosen ≡ true
    → host.get_addr_info host_bytes xdm_udp_port (get_family_type address) ≡ some chosen
    → let created = indirect_client_create address factory in
      (after : Factory) × (ic : IndirectClient) × (on_hostname_selected host address host_bytes
          created
        ≡ some after)
      × (indirect_client_lookup_by_chosen host chosen address after ≡ some ic)
      × (ic.chosen_address ≡ some chosen)
      × ((indirect_client_destroy ic after).indirect_clients ≡ factory.indirect_clients)
unfolding indirect_client_create indirect_client_destroy on_hostname_selected indirect_client_lookup
    indirect_client_lookup_by_chosen
indirect_client_choice host address chosen host_bytes factory a c r =
    let ic : IndirectClient = record {
      pointer = factory.next_pointer;
      dsp_address = address;
      chosen_address = some chosen;
      acctime = 0;
    } in
    let after : Factory = record factory {
      indirect_clients = ic ∷ factory.indirect_clients;
      next_pointer = suc factory.next_pointer;
    } in
    (
      after,
      ic,
      ground (arith, a, c, r, ==_refl factory.next_pointer),
      ground (arith, a, c),
      refl,
      ground (arith, ==_refl factory.next_pointer),
    )

pub indirect_client_destroy-Untimed :
    (ic : IndirectClient) (factory : Factory)
    → Untimed factory.indirect_clients
    → Untimed (indirect_client_destroy ic factory).indirect_clients
unfolding indirect_client_destroy
indirect_client_destroy-Untimed ic factory h = go factory.indirect_clients h
  where
    go : (ics : List IndirectClient) → Untimed ics → Untimed (remove_client ic.pointer ics)
    go [] k = tt
    go (x ∷ rest) k = ground (arith, k, go rest k.1)

set_choice-Untimed :
    (pointer : ℕ) (chosen : Option Address) (ics : List IndirectClient)
    → Untimed ics
    → Untimed (set_choice pointer chosen ics)
unfolding set_choice
set_choice-Untimed pointer chosen [] h = tt
set_choice-Untimed pointer chosen (ic ∷ rest) h =
    ground (arith, h, set_choice-Untimed pointer chosen rest h.1)

-- A choice, if the process survives it, changes nothing but the table, and leaves that without times.
pub on_hostname_selected-Untimed :
    (host : Host) (address : Address) (host_bytes : Bytes) (factory : Factory)
    → Untimed factory.indirect_clients
    → (on_hostname_selected host address host_bytes factory ≡ none)
      ⊎ ((ics : List IndirectClient) × (on_hostname_selected host address host_bytes factory
            ≡ some (record factory { indirect_clients = ics }))
          × Untimed ics)
unfolding on_hostname_selected
on_hostname_selected-Untimed host address host_bytes factory h =
    rw (indirect_client_lookup_never_expires host address factory h)
      (go (find (λ ic. same_address host ic.dsp_address address) factory.indirect_clients))
  where
    chosen : Option Address
    chosen = host.get_addr_info host_bytes xdm_udp_port (get_family_type address)

    go :
        (found : Option IndirectClient)
        → (select chosen (found, factory) ≡ none)
          ⊎ ((ics : List IndirectClient) × (select chosen (found, factory)
                ≡ some (record factory { indirect_clients = ics }))
              × Untimed ics)
    go none = inl refl
    go (some ic) = inr (
      set_choice ic.pointer chosen factory.indirect_clients,
      refl,
      set_choice-Untimed ic.pointer chosen factory.indirect_clients h,
    )
