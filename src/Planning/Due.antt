-- ===== src/Planning/Due.antt =====
-- When the launcher takes up a stream whose schedule was planned or dropped by a request.
use youtube_translation.Base.{
  ℕ, ◌≡◌, Bool, not, ◌&&◌, Option, if◌then◌else◌, Text, refl, sym, subst, arith,
}
use youtube_translation.Schedule.Normalize.{ok, never, ZoneInfo}
use youtube_translation.Schedule.Stop.{compute_schedule_stop_time}
use youtube_translation.Stream.{Stream, is_busy}
use youtube_translation.Planning.{
  accepted, refuse_if, lift, Request, validate_schedule, Config, build_schedule_config,
  config_timezone, config_weekdays, if_enabled, write_stop, write_plan, drop_plan, plan_stream,
  config_while_running, start_while_running,
}
use youtube_translation.Planning.Planned.{
  bind-accepted, lift-accepted, IsAccepted, validate_schedule-IsAccepted,
}

-- What a configuration holds of its request.
pub record ConfigOf (zones : ZoneInfo) (profile : Option Text) (r : Request) (c : Config)
    : Type 0 where
  pub timezone : config_timezone zones profile r r.planned ≡ accepted c.timezone
  pub weekdays :
      config_weekdays zones c.timezone r.weekdays r.repeat (if_enabled r.planned r.start_at)
      ≡ accepted c.weekdays
  pub stop :
      compute_schedule_stop_time zones
        (if_enabled r.planned r.start_at)
        r.stop_at
        c.timezone
        r.window_end_time
        r.stop_after_seconds
      ≡ ok c.stop_time
  pub start : c.start_time ≡ if_enabled r.planned r.start_at
  pub repeat : c.repeat ≡ (if r.planned then r.repeat else never)

pub config-ConfigOf :
    (zones : ZoneInfo) (profile : Option Text) (r : Request) (c : Config)
    → build_schedule_config zones profile r ≡ accepted c
    → ConfigOf zones profile r c
unfolding build_schedule_config
config-ConfigOf zones profile r c h =
    let start = if_enabled r.planned r.start_at in
    let (timezone, s1, h1) = bind-accepted (config_timezone zones profile r r.planned) _ h in
    let (days, s2, h2) =
      bind-accepted (config_weekdays zones timezone r.weekdays r.repeat start) _ h1 in
    let computed =
      compute_schedule_stop_time zones start r.stop_at timezone r.window_end_time
        r.stop_after_seconds in
    let (stop, s3, h3) = bind-accepted (lift computed) _ h2 in
    let made : Config = record {
      enabled = r.planned;
      start_time = start;
      timezone = timezone;
      repeat = if r.planned then r.repeat else never;
      weekdays = days;
      window_end_time = if_enabled r.planned r.window_end_time;
      stop_after_seconds = if_enabled r.planned r.stop_after_seconds;
      stop_time = stop;
    } in
    let is : made ≡ c = ground (arith, h3) in
    subst (ConfigOf zones profile r) is (record {
      timezone = s1;
      weekdays = s2;
      stop = lift-accepted computed s3;
      start = refl;
      repeat = refl;
    })

module _ (zones : ZoneInfo) (now : ℕ) (profile : Option Text) (allowed : Stream → Bool)
    (edits : Bool) (given : Request) (s s' : Stream) where
  -- The request and the configuration behind a row.
  pub record Written : Type 0 where
    pub request : Request
    pub config : Config
    pub is_accepted : IsAccepted zones now given request
    pub config_of : ConfigOf zones profile request config
    pub row : s' ≡ write_stop config (if given.planned then write_plan config s else drop_plan s)

  pub plan_stream-Written :
      plan_stream zones now profile allowed edits given s ≡ accepted s' → Written
  unfolding plan_stream
  plan_stream-Written h =
      let (r, s1, h1) = bind-accepted (validate_schedule zones now given) _ h in
      let (c, s2, h2) = bind-accepted (build_schedule_config zones profile r) _ h1 in
      let (a3, s3, h3) =
        bind-accepted (refuse_if (edits && is_busy s.status) config_while_running) _ h2 in
      let (a4, s4, h4) =
        bind-accepted (refuse_if (r.planned && not (allowed s)) start_while_running) _ h3 in
      let ok_r = validate_schedule-IsAccepted zones now given r s1 in
      record {
        request = r;
        config = c;
        is_accepted = ok_r;
        config_of = config-ConfigOf zones profile r c s2;
        row = written r c ok_r.mode h4;
      }
    where
      written :
          (r : Request) (c : Config)
          → r.planned ≡ given.planned
          → accepted (write_stop c (if r.planned then write_plan c s else drop_plan s))
            ≡ accepted s'
          → s' ≡ write_stop c (if given.planned then write_plan c s else drop_plan s)
      written r c mode e = sym (
          subst (λ b. write_stop c (if b then write_plan c s else drop_plan s) ≡ s') mode
            (ground (arith, e)))
