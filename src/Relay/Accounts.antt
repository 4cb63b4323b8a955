-- ===== src/Relay/Accounts.antt =====
-- No player that leaves the relay is lost, and none is reported twice.
use mas_dsmb.Prelude.{
  ◌≡◌, ◌+◌, ◌||◌, ◌∷◌, ◌==◌, ℕ, String, refl, sym, ap, inl, inr, true, false, Option, none, some,
  List, [], arith, Bool-cases, elem, distinct, Dict, lookup, subst, elem-append, nat_Eq, text_Eq,
}
use mas_dsmb.Relay.{
  Relay, close, report, broadcast, name_socket, connect, get_disconnected_player, next_disconnected,
}
use text.Mathlib.TextEquality.{eq_iff}
use mas_dsmb.Relay.Steps.{Reach, starts, connects, sends, ends, polls}
use mas_dsmb.Relay.Counts.{
  count, names, sockets, one_if, one_of, count-append_one, count-insert, elem-insert,
  distinct-insert, elem-erase, distinct-erase, count-erase, elem-remove_one,
}

-- Every named socket is connected, and has one name.
record IsOrderly (s : Relay) : Type 0 where
  apart : distinct (sockets s.ws_to_player) ≡ true
  connected : (ws : ℕ) → elem ws (sockets s.ws_to_player) ≡ true → elem ws s.connections ≡ true

-- Who came has been reported, waits to be reported, or is connected.
abbrev pub IsBalanced : String → List String → List String → Relay → Type 0
IsBalanced id came told s =
    count id came ≡ count id told + count id s.disconnect_queue + count id (names s.ws_to_player)

name_socket-apart :
    (ws : ℕ) (player_id : String) (d : Dict ℕ String)
    → elem ws (sockets d) ≡ false
    → distinct (sockets d) ≡ true
    → distinct (sockets (name_socket ws player_id d)) ≡ true
unfolding name_socket
name_socket-apart ws player_id d fresh apart =
    ground (arith, distinct-insert ws player_id d fresh apart)

name_socket-elem :
    (k ws : ℕ) (player_id : String) (d : Dict ℕ String)
    → elem k (sockets (name_socket ws player_id d)) ≡ true
    → (ws == k || elem k (sockets d)) ≡ true
unfolding name_socket
name_socket-elem k ws player_id d h = ground (arith, elem-insert k ws player_id d)

name_socket-count :
    (id : String) (ws : ℕ) (player_id : String) (d : Dict ℕ String)
    → (id == "") ≡ false
    → elem ws (sockets d) ≡ false
    → count id (names (name_socket ws player_id d)) ≡ count id (names d) + one_if id player_id
unfolding name_socket
name_socket-count id ws player_id d named fresh = ground (
  arith,
  count-insert id player_id ws d fresh,
  eq_iff player_id id,
  eq_iff player_id "",
  eq_iff id "",
)

report-count :
    (id : String) (found : Option String) (queue : List String)
    → (id == "") ≡ false
    → count id (report found queue) ≡ count id queue + one_of id found
unfolding report
report-count id none queue named = omega arith
report-count id (some x) queue named =
    ground (arith, count-append_one id x queue, eq_iff x id, eq_iff x "", eq_iff id "")

fresh_socket :
    (ws : ℕ) (s : Relay)
    → IsOrderly s
    → elem ws s.connections ≡ false
    → elem ws (sockets s.ws_to_player) ≡ false
fresh_socket ws s h fresh = elim (Bool-cases (elem ws (sockets s.ws_to_player))) [
  | inl used ↦ absurd (ground (arith, h.connected ws used))
  | inr free ↦ free
]

connect-IsOrderly :
    (ws : ℕ) (player_id : String) (s : Relay)
    → elem ws s.connections ≡ false
    → IsOrderly s
    → IsOrderly (connect ws player_id s)
unfolding connect
connect-IsOrderly ws player_id s fresh h = record {
  apart = name_socket-apart ws player_id s.ws_to_player (fresh_socket ws s h fresh) h.apart;
  connected = λ k used. ground (
    arith,
    name_socket-elem k ws player_id s.ws_to_player used,
    h.connected k,
    elem-append k s.connections (ws ∷ []),
  );
}

close-IsOrderly : (ws : ℕ) (s : Relay) → IsOrderly s → IsOrderly (close ws s)
unfolding close
close-IsOrderly ws s h = record {
  apart = distinct-erase ws s.ws_to_player h.apart;
  connected = λ k used.
      ground
        (arith, elem-erase k ws s.ws_to_player, elem-remove_one k ws s.connections, h.connected k);
}

-- A poll takes the first of the queue.
polled :
    (s : Relay) (player_id : String) (rest : List String)
    → s.disconnect_queue ≡ player_id ∷ rest
    → (get_disconnected_player s).1 ≡ record s { disconnect_queue = rest }
unfolding get_disconnected_player next_disconnected
polled s player_id rest waiting = ap (λ queue. (next_disconnected queue s).1) waiting

Reach-IsOrderly : {came told : List String} {s : Relay} → Reach came told s → IsOrderly s
unfolding broadcast get_disconnected_player next_disconnected
Reach-IsOrderly starts = record { apart = refl; connected = λ ws used. absurd (ground arith) }
Reach-IsOrderly (connects {s = s} ws player_id fresh r) =
    connect-IsOrderly ws player_id s fresh (Reach-IsOrderly r)
Reach-IsOrderly (sends {s = s} fails r) = record {
  apart = (Reach-IsOrderly r).apart;
  connected = (Reach-IsOrderly r).connected;
}
Reach-IsOrderly (ends {s = s} ws there r) = close-IsOrderly ws s (Reach-IsOrderly r)
Reach-IsOrderly (polls {s = s} player_id rest waiting r) =
    subst IsOrderly (sym (polled s player_id rest waiting))
      (record { apart = (Reach-IsOrderly r).apart; connected = (Reach-IsOrderly r).connected })

-- However sockets come, fail and end, and whenever the game asks: a player id that is not empty has
-- come over exactly as many sockets as the game was told of, wait in the queue and are connected. No departure is lost,
-- and none is told twice.
pub Reach-IsBalanced :
    (id : String) {came told : List String} {s : Relay}
    → (id == "") ≡ false
    → Reach came told s
    → IsBalanced id came told s
unfolding connect close broadcast get_disconnected_player next_disconnected
Reach-IsBalanced id named starts = refl
Reach-IsBalanced id named (connects {s = s} ws player_id fresh r) = ground (
  arith,
  name_socket-count id ws player_id s.ws_to_player named
      (fresh_socket ws s (Reach-IsOrderly r) fresh),
  Reach-IsBalanced id named r,
)
Reach-IsBalanced id named (sends {s = s} fails r) = Reach-IsBalanced id named r
Reach-IsBalanced id named (ends {s = s} ws there r) = omega (
  arith,
  count-erase id ws s.ws_to_player (Reach-IsOrderly r).apart,
  report-count id (lookup ws s.ws_to_player) s.disconnect_queue named,
  Reach-IsBalanced id named r,
)
Reach-IsBalanced id named (polls {came = came} {told = told} {s = s} player_id rest waiting r) =
    subst (IsBalanced id came (player_id ∷ told)) (sym (polled s player_id rest waiting))
      (ground (arith, ap (count id) waiting, Reach-IsBalanced id named r))
