-- ===== src/Handlers/Clock/Alarms.antt =====
-- The search of the next alarm (prochaine_alarme of src/app/handlers.c): it finds the first day on which the alarm
-- rings, and it finds one where the days are regular.
use sweet_dawn.Base.{
  ℕ, zero, suc, ◌+◌, ◌-◌, ◌*◌, ◌%◌, ◌^◌, ◌≤◌, ◌<◌, ◌≡◌, ◌≢◌, ◌⊎◌, ◌∙◌, inl, inr, refl, sym, ap,
  arith, subst, Bool, true, false, not, ◌||◌, Option, none, some, if_intro, Bool-cases,
  Option-cases, bit_and, ℤ, pos, ◌-ℤ◌, ltb_ℤ, is_minus_one,
}
use sweet_dawn.Os.{Os}
use sweet_dawn.Control.{Tm}
use sweet_dawn.Control.Alarm.{ControlAlarm}
use sweet_dawn.Link.{SweetDawn}
use sweet_dawn.Handlers.Clock.{
  Calendar, candidate, ticked, chercher_alarme, horloge_aml, prochaine_alarme,
}

at_or_after : (k j : ℕ) → k ≤ j → (k ≡ j) ⊎ (k + 1 ≤ j)
at_or_after k j h = ground (arith, h)

-- An alarm at an hour of the day, which rings on some day of the week, or on every day.
pub record CanRing (alarm : ControlAlarm) : Type 0 where
  pub hour : alarm.hour ≤ 23
  pub minute : alarm.minute ≤ 59
  pub some_day :
      (j : ℕ) × (j < 7) × ((bit_and alarm.days 0x7F ≡ 0) ⊎ (bit_and alarm.days (2 ^ j) ≢ 0))

at_or_before : (a b : ℕ) → (a < b) ⊎ (b ≤ a)
at_or_before a b = ground arith

not_after : (i k : ℕ) → ¬ (k < i) → i ≤ k
not_after i k h = ground (arith, h)

ltb_pos : (a b : ℕ) → ltb_ℤ (pos a) (pos b) ≡ true → a < b
ltb_pos a b h = ground (arith, h)

pos-ℤ : (a b : ℕ) → b ≤ a → pos a -ℤ pos b ≡ pos (a - b)
unfolding ◌-ℤ◌
pos-ℤ a b h = ground (arith, h)

-- The delay to the day `i`, which is not behind a day that suits within the week.
week_le :
    (midnight now hour minute i k : ℕ)
    → hour ≤ 23
    → minute ≤ 59
    → i ≤ k
    → k ≤ 7
    → (k ≤ 6) ⊎ (midnight + hour * 3600 + minute * 60 ≤ now)
    → midnight ≤ now
    → midnight + i * 86400 + hour * 3600 + minute * 60 - now ≤ 7 * 86400
week_le midnight now hour minute i k h m first le near morning =
    ground (arith, h, m, first, le, near, morning)

neither : (a b : Bool) → (a || not b) ≡ false → (a ≡ false) × (b ≡ true)
neither a b h = ground (arith, h)

module _ (os : Os) (calendar : Calendar os) where
  open os use {World}

  -- The day `k` suits an alarm: its time exists and is to come, and the alarm rings on this day of
  -- the week.
  pub record Suits (today : Tm) (now : ℤ) (alarm : ControlAlarm) (k : ℕ) (t : ℤ) : Type 0 where
    pub time : (calendar.mktime (candidate os calendar today alarm k)).0 ≡ t
    pub exists : is_minus_one t ≡ false
    pub to_come : ltb_ℤ now t ≡ true
    pub rings :
        (bit_and alarm.days 0x7F ≡ 0)
        ⊎ (bit_and alarm.days
              (2 ^ (calendar.mktime (candidate os calendar today alarm k)).1.tm_wday)
            ≢ 0)

  -- What the search from the day `k` to the day before `end` may return: the delay to the first day
  -- that suits, or nothing if none does.
  pub IsFirst : Tm → ℤ → ControlAlarm → ℕ → ℕ → Option ℤ → Type 0
  IsFirst today now alarm k end none =
      (j : ℕ) (t : ℤ) → k ≤ j → j < end → ¬ Suits today now alarm j t
  IsFirst today now alarm k end (some delay) =
      (i : ℕ) × (t : ℤ) × (k ≤ i)
      × (i < end)
      × Suits today now alarm i t
      × (delay ≡ t -ℤ now)
      × ((j : ℕ) (u : ℤ) → k ≤ j → j < i → ¬ Suits today now alarm j u)

  ticked_rings :
      (alarm : ControlAlarm) (wday : ℕ)
      → ticked os calendar alarm wday ≡ true
      → (bit_and alarm.days 0x7F ≡ 0) ⊎ (bit_and alarm.days (2 ^ wday) ≢ 0)
  unfolding ticked
  ticked_rings alarm wday h = ground (arith, h)

  -- A day that does not suit, in front of the others.
  not_here :
      (today : Tm) (now : ℤ) (alarm : ControlAlarm) (k j : ℕ) (t : ℤ)
      → ((u : ℤ) → ¬ Suits today now alarm k u)
      → (k + 1 ≤ j → ¬ Suits today now alarm j t)
      → k ≤ j
      → ¬ Suits today now alarm j t
  not_here today now alarm k j t here later le s = elim (at_or_after k j le) [
    | inl e ↦ here t (subst (λ n. Suits today now alarm n t) (sym e) s)
    | inr l ↦ later l s
  ]

  later-IsFirst :
      (today : Tm) (now : ℤ) (alarm : ControlAlarm) (k end : ℕ) (r : Option ℤ)
      → ((t : ℤ) → ¬ Suits today now alarm k t)
      → IsFirst today now alarm (k + 1) end r
      → IsFirst today now alarm k end r
  unfolding IsFirst
  later-IsFirst today now alarm k end none h v =
      λ j t le lt. not_here today now alarm k j t h (λ l. v j t l lt) le
  later-IsFirst today now alarm k end (some delay) h (i, t, ki, ie, s, e, v) = (
    i,
    t,
    omega (arith, ki),
    ie,
    s,
    e,
    λ j u le lt. not_here today now alarm k j u h (λ l. v j u l lt) le,
  )

  chercher-IsFirst :
      (today : Tm) (now : ℤ) (alarm : ControlAlarm) (left k : ℕ)
      → IsFirst today now alarm k (k + left) (chercher_alarme os calendar today now alarm left k)
  unfolding chercher_alarme ticked IsFirst
  chercher-IsFirst today now alarm zero k = λ j t le lt. absurd (omega (arith, le, lt))
  chercher-IsFirst today now alarm (suc left) k =
      let rest = chercher_alarme os calendar today now alarm left (k + 1) in
      let P = IsFirst today now alarm k (k + suc left) in
      let day = (calendar.mktime (candidate os calendar today alarm k)) in
      let further : ((t : ℤ) → ¬ Suits today now alarm k t) → P rest = λ h.
        later-IsFirst today now alarm k (k + suc left) rest h (
          subst (λ n. IsFirst today now alarm (k + 1) n rest) (omega arith)
            (chercher-IsFirst today now alarm left (k + 1))) in
      if_intro P (is_minus_one day.0 || not (ltb_ℤ now day.0))
        (λ h. further (λ t s.
          let e = subst (λ u. is_minus_one u ≡ false) (sym s.time) s.exists in
          let l = subst (λ u. ltb_ℤ now u ≡ true) (sym s.time) s.to_come in
          absurd (ground (arith, h, e, l))))
        (λ h.
          if_intro P (ticked os calendar alarm day.1.tm_wday)
            (λ r. (
              k,
              day.0,
              omega arith,
              omega arith,
              record {
                time = refl;
                exists = (neither (is_minus_one day.0) (ltb_ℤ now day.0) h).0;
                to_come = (neither (is_minus_one day.0) (ltb_ℤ now day.0) h).1;
                rings = ticked_rings alarm day.1.tm_wday r;
              },
              refl,
              λ j u le lt. absurd (omega (arith, le, lt)),
            ))
            (λ r. further λ t s. absurd (ground (arith, r, s.rings))))

  -- The days are regular around a time: a day has 86400 seconds, and mktime() finds the alarm at its
  -- hour and minute, on the days of the week one after the other.
  pub record IsRegular (today : Tm) (now : ℕ) (alarm : ControlAlarm) : Type 0 where
    pub midnight : ℕ
    pub morning : midnight ≤ now
    pub evening : now < midnight + 86400
    pub weekday : today.tm_wday < 7
    pub time :
        (k : ℕ)
        → k ≤ 7
        → (calendar.mktime (candidate os calendar today alarm k)).0
          ≡ pos (midnight + k * 86400 + alarm.hour * 3600 + alarm.minute * 60)
    pub day :
        (k : ℕ)
        → k ≤ 7
        → (calendar.mktime (candidate os calendar today alarm k)).1.tm_wday
          ≡ (today.tm_wday + k) % 7

  -- How many days on a day of the week is.
  abbrev away : ℕ → ℕ → ℕ
  away wday j = (j + 7 - wday) % 7

  regular-Suits :
      (today : Tm) (now : ℕ) (alarm : ControlAlarm) (j k : ℕ) (r : IsRegular today now alarm)
      → k ≤ 7
      → (today.tm_wday + k) % 7 ≡ j
      → now < r.midnight + k * 86400 + alarm.hour * 3600 + alarm.minute * 60
      → (bit_and alarm.days 0x7F ≡ 0) ⊎ (bit_and alarm.days (2 ^ j) ≢ 0)
      → Suits today
          (pos now)
          alarm
          k
          (pos (r.midnight + k * 86400 + alarm.hour * 3600 + alarm.minute * 60))
  regular-Suits today now alarm j k r le d h b = record {
    time = r.time k le;
    exists = refl;
    to_come = ground (arith, h);
    rings =
        subst (λ n. (bit_and alarm.days 0x7F ≡ 0) ⊎ (bit_and alarm.days (2 ^ n) ≢ 0))
          (sym (r.day k le ∙ d)) b;
  }

  -- A day within the week suits; the day a week on, only once the hour of today has passed.
  suitable_day :
      (today : Tm) (now : ℕ) (alarm : ControlAlarm) (r : IsRegular today now alarm)
      → CanRing alarm
      → (k : ℕ) × (k ≤ 7)
        × ((k ≤ 6) ⊎ (r.midnight + alarm.hour * 3600 + alarm.minute * 60 ≤ now))
        × Suits today
            (pos now)
            alarm
            k
            (pos (r.midnight + k * 86400 + alarm.hour * 3600 + alarm.minute * 60))
  suitable_day today now alarm r v =
      let (j, lt, b) = v.some_day in
      let w = r.weekday in
      let k = away today.tm_wday j in
      elim (at_or_before now (r.midnight + k * 86400 + alarm.hour * 3600 + alarm.minute * 60)) [
        | inl h ↦ (
          k,
          omega arith,
          inl (omega arith),
          regular-Suits today now alarm j k r (omega arith) (omega (arith, lt, w)) h b,
        )
        | inr h ↦
            let z : k ≡ 0 = omega (arith, h, r.evening) in
            (
              7,
              omega arith,
              inr (omega (arith, h, z)),
              regular-Suits today now alarm j 7 r (omega arith) (omega (arith, lt, w, z))
                  (omega (arith, r.evening)) b,
            )
      ]

  -- The delay to a day that suits in front of the day `k`, or to that day.
  found_delay :
      (today : Tm) (now : ℕ) (alarm : ControlAlarm) (v : CanRing alarm)
      (r : IsRegular today now alarm) (found : Option ℤ)
      → IsFirst today (pos now) alarm 0 8 found
      → (delay : ℕ) × (found ≡ some (pos delay)) × (0 < delay) × (delay ≤ 7 * 86400)
  unfolding IsFirst
  found_delay today now alarm v r none f =
      let (k, le, _, s) = suitable_day today now alarm r v in
      absurd (f k _ (omega arith) (omega (arith, le)) s)
  found_delay today now alarm v r (some delay) (i, t, ki, lt, s, e, before) =
      let (k, le, near, suits) = suitable_day today now alarm r v in
      let at = r.midnight + i * 86400 + alarm.hour * 3600 + alarm.minute * 60 in
      let first : i ≤ k = not_after i k (λ l. before k _ (omega arith) l suits) in
      let here : t ≡ pos at = sym s.time ∙ r.time i (omega (arith, lt)) in
      let ahead : now < at =
        ltb_pos now at (subst (λ u. ltb_ℤ (pos now) u ≡ true) here s.to_come) in
      (
        at - now,
        ap some (e ∙ ap (λ u. u -ℤ pos now) here ∙ pos-ℤ at now (omega (arith, ahead))),
        omega (arith, ahead),
        week_le (r.midnight) now (alarm.hour) alarm.minute i k v.hour v.minute first le near
            r.morning,
      )

module _ (os : Os) (calendar : Calendar os) {Ctx : Type 0} where
  open os use {World}

  searches :
      (app : SweetDawn Ctx) (alarm : ControlAlarm) (w : World) (now : ℤ)
      → alarm.enable ≡ true
      → (horloge_aml os calendar app w).0 ≡ some now
      → (prochaine_alarme os calendar app alarm w).0
        ≡ chercher_alarme os calendar (calendar.localtime now) now alarm 8 0
  unfolding prochaine_alarme
  searches app alarm w now e k = rw (e, k) refl

  -- The delay of an alarm is that to the first of the eight days from today on whose time exists,
  -- is to come, and is on a day of the week on which the alarm rings, and there is none exactly
  -- when no day is such; an alarm that is off, or a clock that is not known, has none.
  pub prochaine_alarme-IsFirst :
      (app : SweetDawn Ctx) (alarm : ControlAlarm) (w : World)
      → (((alarm.enable ≡ false) ⊎ ((horloge_aml os calendar app w).0 ≡ none))
          × ((prochaine_alarme os calendar app alarm w).0 ≡ none))
        ⊎ ((now : ℤ) × (alarm.enable ≡ true)
            × ((horloge_aml os calendar app w).0 ≡ some now)
            × IsFirst os calendar
                (calendar.localtime now)
                now
                alarm
                0
                8
                (prochaine_alarme os calendar app alarm w).0)
  unfolding prochaine_alarme
  prochaine_alarme-IsFirst app alarm w = elim (Bool-cases alarm.enable) [
    | inl e ↦ elim (Option-cases (horloge_aml os calendar app w).0) [
      | inl n ↦ inl (inr n, rw (e, n) refl)
      | inr (now, k) ↦ inr (
        now,
        e,
        k,
        rw (searches app alarm w now e k)
            (chercher-IsFirst os calendar (calendar.localtime now) now alarm 8 0),
      )
    ]
    | inr e ↦ inl (inl e, rw e refl)
  ]

  -- An alarm that is on, at an hour of the day and on some day of the week or on none, which
  -- stands for all, has a delay of more than nothing and of seven days at most, once the clock is
  -- known and where the days around it are regular: a day has 86400 seconds and mktime() finds the
  -- hour of the alarm on each of them, the days of the week one after the other.
  pub prochaine_alarme-found :
      (app : SweetDawn Ctx) (alarm : ControlAlarm) (w : World) (now : ℕ)
      → alarm.enable ≡ true
      → (horloge_aml os calendar app w).0 ≡ some (pos now)
      → CanRing alarm
      → IsRegular os calendar (calendar.localtime (pos now)) now alarm
      → (delay : ℕ) × ((prochaine_alarme os calendar app alarm w).0 ≡ some (pos delay))
        × (0 < delay)
        × (delay ≤ 7 * 86400)
  prochaine_alarme-found app alarm w now e k v r = rw (searches app alarm w (pos now) e k) (
      found_delay os calendar (calendar.localtime (pos now)) now alarm v r
        (chercher_alarme os calendar (calendar.localtime (pos now)) (pos now) alarm 8 0)
        (chercher-IsFirst os calendar (calendar.localtime (pos now)) (pos now) alarm 8 0))
