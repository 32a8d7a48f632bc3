-- ===== src/System/Notices.antt =====
-- The notices of a battery on their way, and what the eNodeB believes of the battery.
use lte.Base.{
  ℕ, ◌≤◌, ◌≡◌, ◌==◌, ◌⊎◌, refl, ap, ◌∙◌, pos, pos_part, Bool, true, false, arith, Option, none,
  some, List, [], ◌∷◌, inl, inr, if◌then◌else◌,
}
use lte.Message.{SMessage, decode_type, zero_message}
use lte.Message.Types.{TypesAre}
use lte.Ue.Sender.{Sender}
use lte.Ue.Battery.{UeBattery, Device, update_battery}
use lte.Ue.Battery.Written.{check_battery_status-TypesAre}
use lte.Ue.Battery.Notices.{
  last_type, due_type, IsNoticed, run_updates, fresh, run_updates-IsNoticed,
}
use lte.Enb.ClientObject.{ClientT, ClientMap, Format, BatteryState, ok, low}
use lte.Enb.ClientObject.Laws
use lte.Enb.Server.{Server, Outcome, running, exited, crashed}
use lte.Enb.Packet.{
  dispatch, update_client, handle_low_battery_request, handle_high_battery_request,
}
use lte.Enb.Packet.Frame.{found}

-- A notice of the battery.
abbrev pub IsNotice : ℕ → Type 0
IsNotice n = (n ≡ 5) ⊎ (n ≡ 6)

run_updates-notices :
    (ticks : List (ℕ × ℕ)) (d : Device)
    → TypesAre IsNotice d.sender.wire
    → TypesAre IsNotice (run_updates ticks d).sender.wire
unfolding run_updates update_battery
run_updates-notices [] d all = all
run_updates-notices ((now, later) ∷ ticks) d all =
    run_updates-notices ticks (update_battery true now later d).0
      (check_battery_status-TypesAre IsNotice true (pos 12) d (inl refl) (inr refl) all)

-- What the last of these notices says.
abbrev pub believed : BatteryState → List SMessage → BatteryState
believed b [] = b
believed b (m ∷ ms) = believed (if m.message_type == 5 then low else ok) ms

believed-last :
    (b : BatteryState) (ms : List SMessage) (n : ℕ)
    → last_type ms ≡ some n
    → believed b ms ≡ (if n == 5 then low else ok)
believed-last b [] n e = cc
believed-last b (m ∷ []) n e = let same : m.message_type ≡ n = cc in rw same
believed-last b (m ∷ k ∷ ms) n e =
    believed-last (if m.message_type == 5 then low else ok) (k ∷ ms) n e

abbrev pub idle : Sender
idle = record { message = zero_message; wire = [] }

-- A battery well below the threshold while it drains, or well above it while it charges.
abbrev pub IsTelling : UeBattery → Type 0
IsTelling b =
    ((b.charging ≡ false) × (pos_part b.power_percentage ≤ 8))
    ⊎ ((b.charging ≡ true) × (32 ≤ pos_part b.power_percentage))

told-last :
    (d : Device)
    → IsNoticed d
    → IsTelling d.battery
    → last_type d.sender.wire ≡ some (due_type d.battery.charging)
told-last d noticed telling = ground arith

settled : (b : Bool) → (if due_type b == 5 then low else ok) ≡ (if b then ok else low)
settled true = refl
settled false = refl

believed_told :
    (d : Device) (b : BatteryState)
    → IsNoticed d
    → IsTelling d.battery
    → believed b d.sender.wire ≡ (if d.battery.charging then ok else low)
believed_told d b noticed telling =
    believed-last b d.sender.wire (due_type d.battery.charging) (told-last d noticed telling)
    ∙ settled d.battery.charging

module _ (h : ClientMap) (f : Format) (socket now : ℕ) where
  abbrev pub and_hear : (Server h → Outcome h) → Outcome h → Outcome h
  and_hear next (running x) = next x
  and_hear next (exited x) = exited x
  and_hear next crashed = crashed

  -- The messages of one client, handled one after the other.
  abbrev pub hear_all : List SMessage → Server h → Outcome h
  hear_all [] x = running x
  hear_all (m ∷ ms) x =
      and_hear (hear_all ms) (dispatch h f (decode_type m.message_type) socket m now x)

  update_client-battery :
      (o : Option ClientT) (b : BatteryState) (x : Server h) {c : ClientT}
      → o ≡ some c
      → (y : Server h) × (update_client h f o (λ k. record k { battery_state = b }) socket x
          ≡ running y)
        × (found h f y socket ≡ some (record c { battery_state = b }))
  unfolding update_client
  update_client-battery none b x e = cc
  update_client-battery (some d) b x {c} e = (
    _,
    refl,
    Laws.get-put_self h f x.clients socket (record d { battery_state = b })
        ∙ ap (λ (o : Option ClientT). changed o) e,
  )
    where
      changed : Option ClientT → Option ClientT
      changed none = none
      changed (some k) = some (record k { battery_state = b })

  notice-noted :
      (m : SMessage) (x : Server h) (c : ClientT)
      → IsNotice m.message_type
      → found h f x socket ≡ some c
      → (y : Server h) × (dispatch h f (decode_type m.message_type) socket m now x ≡ running y)
        × (found h f y socket
            ≡ some (record c { battery_state = if m.message_type == 5 then low else ok }))
  unfolding dispatch handle_low_battery_request handle_high_battery_request
  notice-noted m x c (inl l) here = rw l (update_client-battery (found h f x socket) low x here)
  notice-noted m x c (inr l) here = rw l (update_client-battery (found h f x socket) ok x here)

  hear_all-noted :
      (ms : List SMessage) (x : Server h) (c : ClientT)
      → TypesAre IsNotice ms
      → found h f x socket ≡ some c
      → (y : Server h) × (hear_all ms x ≡ running y)
        × (found h f y socket ≡ some (record c { battery_state = believed c.battery_state ms }))
  hear_all-noted [] x c all here = (x, refl, here)
  hear_all-noted (m ∷ ms) x c all here =
      let (y, step, noted) = notice-noted m x c all.0 here in
      let (z, rest, last) = hear_all-noted ms y _ all.1 noted in (z, rw step rest, last)

  -- Whoever updates a new battery as often as it likes, and has its notices handled by the eNodeB
  -- in their order, is then taken to have a low battery if the battery drains at 8 percent or
  -- less, and a good one if it charges at 32 percent or more. The client has a record, and no
  -- `write` fails.
  pub notices_arrive :
      (start : ℕ) (ticks : List (ℕ × ℕ)) (x : Server h) (c : ClientT)
      → found h f x socket ≡ some c
      → IsTelling (run_updates ticks (fresh start idle)).battery
      → let d = run_updates ticks (fresh start idle) in
        let kept = record c { battery_state = if d.battery.charging then ok else low } in
        (y : Server h) × (hear_all d.sender.wire x ≡ running y) × (found h f y socket ≡ some kept)
  notices_arrive start ticks x c here telling =
      let d = run_updates ticks (fresh start idle) in
      let noticed = run_updates-IsNoticed start idle ticks in
      let (y, done, noted) =
        hear_all-noted d.sender.wire x c (run_updates-notices ticks (fresh start idle) tt) here in
      (
        y,
        done,
        noted
            ∙ ap (λ (b : BatteryState). some (record c { battery_state = b }))
                (believed_told d c.battery_state noticed telling),
      )
