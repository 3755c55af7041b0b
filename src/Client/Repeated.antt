-- ===== src/Client/Repeated.antt =====
-- Commands that come twice, in internal/protocol/client_control.go.
use mbta_go.Base.{
  ◌≡◌, refl, [], ◌∷◌, ◌++◌, Bool, true, false, if◌then◌else◌, ltb, eqb, Bytes, bytes_eq, length,
}
use mbta_go.Base.{Map, lookup, insert, lookup-insert_self, Bool-cases, inl, inr}
use mbta_go.Client.Control.{Receiver, dispatch_command, remember_command, known_command}

lookup-remember_command :
    (id : Bytes) (seen : Map Bytes Bool)
    → known_command (lookup id (remember_command id seen))
      ≡ (if ltb 256 (length (insert id true seen)) then false else true)
unfolding remember_command lookup
lookup-remember_command id seen = elim (Bool-cases (ltb 256 (length (insert id true seen)))) [
  | inl e ↦ rw e refl
  | inr e ↦ rw (e, lookup-insert_self id true seen) refl
]

-- A command with an id that was not seen is executed once when it comes twice in a row, unless the record
-- of seen commands was emptied for it: then it is executed twice.
pub dispatch_command-dispatch_command :
    {D : Type 0} (id : Bytes) (c : Receiver D)
    → eqb (length id) 0 ≡ false
    → known_command (lookup id c.client.seen_commands) ≡ false
    → (dispatch_command id (dispatch_command id c)).executed ≡ (
        if ltb 256 (length (insert id true c.client.seen_commands))
        then (c.executed ++ (id ∷ [])) ++ (id ∷ [])
        else c.executed ++ (id ∷ []))
unfolding dispatch_command
dispatch_command-dispatch_command id c e k =
    let seen = c.client.seen_commands in
    let known = lookup-remember_command id seen in
    elim (Bool-cases (ltb 256 (length (insert id true seen)))) [
      | inl o ↦ rw (e, k, known, o) refl
      | inr o ↦ rw (e, k, known, o) refl
    ]
