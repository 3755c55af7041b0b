-- ===== src/Commands/Routing.antt =====
-- Connections that come and go in the registry of internal/protocol/command_registry.go.
use mbta_go.Base.{
  ℕ, ◌≡◌, refl, List, [], ◌∷◌, false, ◌&&◌, if◌then◌else◌, eqb, Bytes, bytes_eq, ◌==◌, arith,
}
use mbta_go.Base.{Option, none, some, lookup, length, lookup-insert, lookup-delete, bytes_eqb_iff}
use mbta_go.Commands.{CommandRegistry, new_command_registry, register, unregister, get, points_to}

-- A connection of an agent becomes ready, or ends.
pub data Visit : Type 0 where
  joins leaves : (agent : Bytes) (h : ℕ) → Visit

unfoldable pub visit : Visit → CommandRegistry → CommandRegistry
visit (joins agent h) r = register agent h r
visit (leaves agent h) r = unregister agent h r

unfoldable pub visit_all : List Visit → CommandRegistry → CommandRegistry
visit_all [] r = r
visit_all (v ∷ vs) r = visit_all vs (visit v r)

-- What is promised: an agent's commands go to the connection of it that joined last, until that very
-- connection leaves.
unfoldable pub route : Bytes → Visit → Option ℕ → Option ℕ
route agent (joins a h) current = if a == agent then some h else current
route agent (leaves a h) current = if (a == agent) && points_to h current then none else current

unfoldable pub route_all : Bytes → List Visit → Option ℕ → Option ℕ
route_all agent [] current = current
route_all agent (v ∷ vs) current = route_all agent vs (route agent v current)

get-visit :
    (agent : Bytes) (v : Visit) (r : CommandRegistry)
    → eqb (length agent) 0 ≡ false
    → get agent (visit v r) ≡ route agent v (get agent r)
unfolding get visit route register unregister
get-visit agent (joins a h) r e =
    ground (arith, lookup-insert a agent h r.by_agent, bytes_eqb_iff a agent)
get-visit agent (leaves a h) r e =
    ground (arith, lookup-delete a agent r.by_agent, bytes_eqb_iff a agent)

get-visit_all_from :
    (agent : Bytes) (vs : List Visit) (r : CommandRegistry)
    → eqb (length agent) 0 ≡ false
    → get agent (visit_all vs r) ≡ route_all agent vs (get agent r)
unfolding visit_all route_all
get-visit_all_from agent [] r e = refl
get-visit_all_from agent (v ∷ vs) r e =
    rw (← get-visit agent v r e) (get-visit_all_from agent vs (visit v r) e)

-- Refinement: over any comings and goings of connections, in any order, the registry that starts empty
-- answers for an agent with a name exactly the connection that is promised.
pub get-visit_all :
    (agent : Bytes) (vs : List Visit)
    → eqb (length agent) 0 ≡ false
    → get agent (visit_all vs new_command_registry) ≡ route_all agent vs none
unfolding get lookup
get-visit_all agent vs e = get-visit_all_from agent vs new_command_registry e
