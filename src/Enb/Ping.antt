-- ===== src/Enb/Ping.antt =====
-- The threads of the eNodeB: pings, the dropping of clients that are silent, and measurement
-- control requests (packet_handler.c and `handle_client_inactivity` of client_handler.c).
--
-- `clock` is what `time` returns while an entry is visited.
pub mod Rounds
pub mod Inactive
use lte.Base.{ℕ, ℤ, pos, ◌-ℤ◌, ltb_ℤ, Bool, true, false, ◌&&◌, ◌||◌, if◌then◌else◌, List, [], ◌∷◌}
use lte.Message.{type_code, ping, measurement_control_request}
use lte.Enb.ClientObject.{
  ClientT, ClientMap, Format, Entry, BatteryState, ok, low, delete_client_from_hashmap,
}
use lte.Enb.Server.{Server, typed_message, send, close_socket, hashmap_iter}

abbrev pub ping_time_normal : ℤ
ping_time_normal = pos 5

abbrev pub ping_time_low_battery : ℤ
ping_time_low_battery = pos 10

abbrev pub ping_timeout : ℤ
ping_timeout = pos 4000

abbrev pub is_ok : BatteryState → Bool
is_ok ok = true
is_ok low = false

abbrev pub is_low : BatteryState → Bool
is_low ok = false
is_low low = true

unfoldable pub should_ping : ℕ → ClientT → Bool
should_ping now c =
    let time_since_last_activity = pos now -ℤ c.last_activity in
    is_ok c.battery_state && ltb_ℤ ping_time_normal time_since_last_activity
    || is_low c.battery_state && ltb_ℤ ping_time_low_battery time_since_last_activity

unfoldable pub should_kick : ℕ → ClientT → Bool
should_kick now c = ltb_ℤ ping_timeout (pos now -ℤ c.last_activity)

module _ (h : ClientMap) (f : Format) where
  unfoldable pub ping_client : ℕ → Entry → Server h → Server h × ℤ
  ping_client now (k, c) s =
      (if should_ping now c then send h f c.socket (typed_message (type_code ping)) s else s, pos 0)

  unfoldable pub handle_client_inactivity : ℕ → Entry → Server h → Server h × ℤ
  handle_client_inactivity now (k, c) s =
      let closed = close_socket h f c.socket s in
      (
        if should_kick now c
            then record closed { clients = delete_client_from_hashmap h f s.clients c.socket }
            else s,
        pos 0,
      )

  unfoldable pub send_measurement_control_request : Entry → Server h → Server h × ℤ
  send_measurement_control_request (k, c) s =
      (send h f c.socket (typed_message (type_code measurement_control_request)) s, pos 0)

  unfoldable pub ping_clients : (Entry → ℕ) → Server h → Server h
  ping_clients clock s = hashmap_iter (λ e. ping_client (clock e) e) (h.entries s.clients) s

  -- `handle_client_inactivity` deletes the entry that is being visited, of which lib/hashmap.h
  -- promises nothing: `visited` is whatever the traversal visits.
  unfoldable pub drop_clients : (Entry → ℕ) → List Entry → Server h → Server h
  drop_clients clock visited s = hashmap_iter (λ e. handle_client_inactivity (clock e) e) visited s

  -- One round of `ping_and_timeout_in_thread` after its `sleep`.
  unfoldable pub ping_and_timeout : (Entry → ℕ) → (Entry → ℕ) → List Entry → Server h → Server h
  ping_and_timeout ping_clock drop_clock visited s =
      drop_clients drop_clock visited (ping_clients ping_clock s)

  -- One round of `send_measurement_control_requests`.
  unfoldable pub request_measurements : Server h → Server h
  request_measurements s = hashmap_iter send_measurement_control_request (h.entries s.clients) s
