-- ===== src/Handlers/Clock/Dates.antt =====
-- The dates that a user writes (lire_date_heure of src/app/handlers.c).
use sweet_dawn.Base.{
  ℕ, ◌+◌, ◌-◌, ◌≤◌, ◌≡◌, refl, arith, subst, Bool, false, not, ◌||◌, Option, none, some, String,
  ◌==◌, if_intro, option_intro, ℤ, pos, pos_part, is_minus_one,
}
use sweet_dawn.Os.{Os}
use sweet_dawn.Control.{Tm}
use sweet_dawn.Handlers.Clock.{Calendar, DateTexts, off, date_of, lire_date_heure}

-- Six numbers of a date and an hour.
pub record Fields : Type 0 where
  pub year : ℕ
  pub month : ℕ
  pub day : ℕ
  pub hour : ℕ
  pub minute : ℕ
  pub second : ℕ

abbrev pub read_of : Fields → ℤ × ℤ × ℤ × ℤ × ℤ × ℤ
read_of f = (pos f.year, pos f.month, pos f.day, pos f.hour, pos f.minute, pos f.second)

-- What a text says, given today: the format with all the fields first, and the fields that a format lacks are
-- those of today, or no seconds.
pub data Says (texts : DateTexts) (value : String) (today : Tm)
    : ℤ × ℤ × ℤ × ℤ × ℤ × ℤ → Type 0 where
  whole :
      {fields : ℤ × ℤ × ℤ × ℤ × ℤ × ℤ}
      → texts.date_hms value ≡ some fields
      → Says texts value today fields
  no_seconds :
      {y mo d h mi : ℤ}
      → texts.date_hms value ≡ none
      → texts.date_hm value ≡ some (y, mo, d, h, mi)
      → Says texts value today (y, mo, d, h, mi, pos 0)
  hour_only :
      {h mi s : ℤ}
      → texts.date_hms value ≡ none
      → texts.date_hm value ≡ none
      → texts.hms value ≡ some (h, mi, s)
      → Says texts value today
          (pos (today.tm_year + 1900), pos (today.tm_mon + 1), pos today.tm_mday, h, mi, s)
  hour_no_seconds :
      {h mi : ℤ}
      → texts.date_hms value ≡ none
      → texts.date_hm value ≡ none
      → texts.hms value ≡ none
      → texts.hm value ≡ some (h, mi)
      → Says texts value today
          (pos (today.tm_year + 1900), pos (today.tm_mon + 1), pos today.tm_mday, h, mi, pos 0)

in_range :
    (z : ℤ) (low high : ℕ)
    → off z low high ≡ false
    → (z ≡ pos (pos_part z)) × (low ≤ pos_part z) × (pos_part z ≤ high)
in_range z low high h = ground (arith, h)

all_six :
    (a b c d e f : Bool)
    → (a || b || c || d || e || f) ≡ false
    → (a ≡ false) × (b ≡ false) × (c ≡ false) × (d ≡ false) × (e ≡ false) × (f ≡ false)
all_six a b c d e f h = ground (arith, h)

all_kept :
    (a : Bool) (m n p q : ℕ)
    → (a || not (m == n) || not (p == q)) ≡ false
    → (a ≡ false) × (m ≡ n) × (p ≡ q)
all_kept a m n p q h = ground (arith, h)

module _ (os : Os) (calendar : Calendar os) where
  abbrev pub asked_tm : Tm → Fields → Tm
  asked_tm today f = record today {
    tm_year = f.year - 1900;
    tm_mon = f.month - 1;
    tm_mday = f.day;
    tm_hour = f.hour;
    tm_min = f.minute;
    tm_sec = f.second;
  }

  -- A date that mktime() keeps, within the years that the AML005 knows.
  pub record IsChosen (today : Tm) (f : Fields) (tm : Tm) : Type 0 where
    pub years : (2000 ≤ f.year) × (f.year ≤ 2099)
    pub months : (1 ≤ f.month) × (f.month ≤ 12)
    pub days : (1 ≤ f.day) × (f.day ≤ 31)
    pub hours : f.hour ≤ 23
    pub minutes : f.minute ≤ 59
    pub seconds : f.second ≤ 59
    pub normal : (calendar.mktime (asked_tm today f)).1 ≡ tm
    pub exists : is_minus_one (calendar.mktime (asked_tm today f)).0 ≡ false
    pub same_month : tm.tm_mon + 1 ≡ f.month
    pub same_day : tm.tm_mday ≡ f.day

  abbrev Chooses : Tm → ℤ × ℤ × ℤ × ℤ × ℤ × ℤ → Option Tm → Type 0
  Chooses today r none = Unit
  Chooses today r (some tm) = (f : Fields) × (r ≡ read_of f) × IsChosen today f tm

  abbrev Accepts : DateTexts → String → Tm → Option Tm → Type 0
  Accepts texts value today none = Unit
  Accepts texts value today (some tm) =
      (f : Fields) × Says texts value today (read_of f) × IsChosen today f tm

  date_of-Chooses :
      (today : Tm) (y mo d h mi s : ℤ)
      → Chooses today (y, mo, d, h, mi, s) (date_of os calendar today (y, mo, d, h, mi, s))
  unfolding date_of
  date_of-Chooses today y mo d h mi s =
      let f : Fields = record {
        year = pos_part y;
        month = pos_part mo;
        day = pos_part d;
        hour = pos_part h;
        minute = pos_part mi;
        second = pos_part s;
      } in
      let r = calendar.mktime (asked_tm today f) in
      let P = Chooses today (y, mo, d, h, mi, s) in
      if_intro P
        (off y 2000 2099 || off mo 1 12 || off d 1 31 || off h 0 23 || off mi 0 59 || off s 0 59)
        (λ _. tt)
        (λ k.
          let (oy, omo, od, oh, omi, os') =
            all_six (off y 2000 2099) (off mo 1 12) (off d 1 31) (off h 0 23) (off mi 0 59)
              (off s 0 59) k in
          let (ey, ly, uy) = in_range y 2000 2099 oy in
          let (em, lm, um) = in_range mo 1 12 omo in
          let (ed, ld, ud) = in_range d 1 31 od in
          let (eh, lh, uh) = in_range h 0 23 oh in
          let (ei, li, ui) = in_range mi 0 59 omi in
          let (es, ls, us) = in_range s 0 59 os' in
          if_intro P
            (is_minus_one r.0
              || not (r.1.tm_mday == pos_part d)
              || not (r.1.tm_mon == pos_part mo - 1))
            (λ _. tt)
            (λ g.
              let (ex, sd, sm) =
                all_kept (is_minus_one r.0) r.1.tm_mday (pos_part d) r.1.tm_mon (pos_part mo - 1)
                  g in
              (
                f,
                rw (← ey, ← em, ← ed, ← eh, ← ei, ← es) refl,
                record {
                  years = (ly, uy);
                  months = (lm, um);
                  days = (ld, ud);
                  hours = uh;
                  minutes = ui;
                  seconds = us;
                  normal = refl;
                  exists = ex;
                  same_month = omega (arith, sm, lm);
                  same_day = sd;
                },
              )))

  chosen-Says :
      (texts : DateTexts) (value : String) (today : Tm) (r : ℤ × ℤ × ℤ × ℤ × ℤ × ℤ)
      (chosen : Option Tm)
      → Says texts value today r
      → Chooses today r chosen
      → Accepts texts value today chosen
  chosen-Says texts value today r none s c = tt
  chosen-Says texts value today r (some tm) s (f, e, v) = (f, subst (Says texts value today) e s, v)

  lire-Accepts :
      (texts : DateTexts) (value : String) (now : ℤ)
      → Accepts texts value (calendar.localtime now) (lire_date_heure os calendar texts value now)
  unfolding lire_date_heure
  lire-Accepts texts value now =
      let today = calendar.localtime now in
      let P = Accepts texts value today in
      let y = pos (today.tm_year + 1900) in
      let mo = pos (today.tm_mon + 1) in
      let d = pos today.tm_mday in
      let take : (r : ℤ × ℤ × ℤ × ℤ × ℤ × ℤ)
          → Says texts value today r
          → P (date_of os calendar today r) =
        λ r s.
          chosen-Says texts value today r (date_of os calendar today r) s
            (date_of-Chooses today r.0 r.1 r.2 r.3 r.4 r.5) in
      option_intro P (texts.date_hms value)
        (λ a.
          option_intro P (texts.date_hm value)
            (λ b.
              option_intro P (texts.hms value)
                (λ c.
                  option_intro P (texts.hm value) (λ _. tt)
                    (λ (h, mi) e. take (y, mo, d, h, mi, pos 0) (hour_no_seconds a b c e)))
                (λ (h, mi, s) e. take (y, mo, d, h, mi, s) (hour_only a b e)))
            (λ (y', mo', d', h, mi) e. take (y', mo', d', h, mi, pos 0) (no_seconds a e)))
        (λ r e. take r (whole e))

  -- A date that is accepted is what the text says, by the first of the four formats that reads the
  -- whole of it, with the date of today where the text has none; it is in a year from 2000 to 2099
  -- at an hour of the day, and mktime() keeps its month and its day.
  pub lire_date_heure-IsChosen :
      (texts : DateTexts) (value : String) (now : ℤ) (tm : Tm)
      → lire_date_heure os calendar texts value now ≡ some tm
      → (f : Fields) × Says texts value (calendar.localtime now) (read_of f)
        × IsChosen (calendar.localtime now) f tm
  lire_date_heure-IsChosen texts value now tm h =
      subst (Accepts texts value (calendar.localtime now)) h (lire-Accepts texts value now)
