-- ===== src/Wifi/Restart.antt =====
-- setup_event.c, `statusWifiUpdate`: when the module restarts.
use esp_misc.Common.{
  ℕ, ◌≡◌, ◌≢◌, ◌≤◌, ◌<◌, ◌+◌, ◌/◌, ◌^◌, refl, sym, ◌∙◌, List, [], ◌∷◌, ltb, if◌then◌else◌, All,
  arith,
}
use esp_misc.Wifi.{
  wifi_got_ip, disconnected_reboot_timout, Monitor, system_restart, status_wifi_update,
}

-- A call of `statusWifiUpdate`.
pub record Update : Type 0 where
  pub told : ℕ
  pub now : ℕ

-- The state after the calls.
unfoldable pub updated : List Update → Monitor → Monitor
updated [] m = m
updated (u ∷ us) m = updated us (status_wifi_update u.told u.now m).0

abbrev pub IsOffline : Update → Type 0
IsOffline u = u.told ≢ wifi_got_ip

step_kept :
    (u : Update) (m : Monitor)
    → m.disconnected_time ≢ 0
    → u.told ≢ wifi_got_ip
    → (status_wifi_update u.told u.now m).0.disconnected_time ≡ m.disconnected_time
unfolding status_wifi_update
step_kept u m some_time off = ground (arith, some_time, off)

cleared :
    (u : Update) (m : Monitor)
    → u.told ≡ wifi_got_ip
    → (status_wifi_update u.told u.now m).0.disconnected_time ≡ 0
unfolding status_wifi_update
cleared u m online = ground (arith, online)

first_recorded :
    (u : Update) (m : Monitor)
    → m.disconnected_time ≡ 0
    → u.told ≢ wifi_got_ip
    → (status_wifi_update u.told u.now m).0.disconnected_time ≡ u.now / 1000
unfolding status_wifi_update
first_recorded u m none_yet off = ground (arith, none_yet, off)

-- Once the moment is recorded, it stays while the station has no address.
kept :
    (us : List Update) (m : Monitor)
    → m.disconnected_time ≢ 0
    → All IsOffline us
    → (updated us m).disconnected_time ≡ m.disconnected_time
unfolding updated
kept [] m some_time offline = refl
kept (u ∷ us) m some_time (off, offs) =
    kept us (status_wifi_update u.told u.now m).0
      (λ z. some_time (sym (step_kept u m some_time off) ∙ z)) offs
    ∙ step_kept u m some_time off

late :
    (u : Update) (m : Monitor) (since : ℕ)
    → m.disconnected_time ≡ since
    → since ≢ 0
    → since ≤ u.now / 1000
    → u.now < 2 ^ 32
    → u.told ≢ wifi_got_ip
    → (status_wifi_update u.told u.now m).1 ≡ (
        if ltb (since + disconnected_reboot_timout) (u.now / 1000) then system_restart ∷ [] else [])
unfolding status_wifi_update
late u m since e some_time order small off = ground (arith, e, some_time, order, small, off)

-- The station gets an address, is then without one from `first` on, at every update of `us` and at `last`;
-- the clock has run for a millisecond before `first` and does not wrap around until `last`. Then the
-- update `last` restarts the module if it comes more than `DISCONNECTED_REBOOT_TIMOUT` milliseconds
-- after `first`, and asks for nothing otherwise.
pub restart_when_overdue :
    (m : Monitor) (address first last : Update) (us : List Update)
    → address.told ≡ wifi_got_ip
    → All IsOffline (first ∷ us)
    → last.told ≢ wifi_got_ip
    → 1000 ≤ first.now
    → first.now ≤ last.now
    → last.now < 2 ^ 32
    → (status_wifi_update last.told last.now (updated (address ∷ first ∷ us) m)).1 ≡ (
        if ltb (first.now / 1000 + disconnected_reboot_timout) (last.now / 1000)
        then system_restart ∷ []
        else [])
unfolding updated
restart_when_overdue m address first last us online (off, offs) off_last start order small =
    let a = (status_wifi_update address.told address.now m).0 in
    let since : (status_wifi_update first.told first.now a).0.disconnected_time ≡ first.now / 1000 =
      first_recorded first a (cleared address m online) off in
    let known : (status_wifi_update first.told first.now a).0.disconnected_time ≢ 0 =
      (λ z. omega (arith, start, since, z)) in
    late last (updated (address ∷ first ∷ us) m) (first.now / 1000)
      (kept us (status_wifi_update first.told first.now a).0 known offs ∙ since)
      (omega (arith, start)) (omega (arith, order)) small off_last

-- The clock has wrapped around since the station lost its address: the next update restarts the
-- module, however little time has gone by.
pub wrap_restarts :
    (m : Monitor) (lost : ℕ) (last : Update)
    → m.disconnected_time ≡ lost / 1000
    → lost < 2 ^ 32
    → last.told ≢ wifi_got_ip
    → last.now / 1000 < lost / 1000
    → (status_wifi_update last.told last.now m).1 ≡ system_restart ∷ []
unfolding status_wifi_update
wrap_restarts m lost last e range off wrapped = ground (arith, e, range, off, wrapped)
