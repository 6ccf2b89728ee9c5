-- ===== src/Store/Samples.antt =====
-- A small site for the tests: an administrator, a user with one account, and its exchange plan.
use Prim.Native.Char.{code}
use miyohub.Base.{String, [], false, if◌then◌else◌, leb, ltb, none, true, ℕ, ◌*◌, ◌+◌, ◌==◌, ◌∷◌}
use miyohub.Base.Int.{pos}
use miyohub.Model.{Config, State}
use miyohub.Model.Accounts.{Account}
use miyohub.Model.Plans.{ExchangePlan, Phase, PlanState, epoch_seconds, minute, second}
use miyohub.Model.Users.{OnboardingStatus, RegistrationMode, Role, User, UserStatus}
use miyohub.Store.Environment.{Environment}
use miyohub.Store.Transaction.{Store}
use miyohub.Store.Users.Passwords.{hash_password}

-- 2026-01-01 00:00:00 UTC, as `time.Time` and as Unix seconds.
abbrev pub new_year : ℕ
new_year = (epoch_seconds + 1767225600) * second

abbrev pub sample_environment : Environment
sample_environment = record {
  is_letter_or_digit = λ c. leb 48 (code c);
  is_control = λ c. ltb (code c) 32;
  is_print = λ c. leb 32 (code c);
  fold = λ c. c;
  to_upper = λ c. c;
  year_later = λ t. t + 365 * 24 * 60 * minute;
  format_time = λ t. "2026-01-01T00:00:00Z";
  zone_known = λ z. z == "UTC";
  local_date = λ z t. if ltb t (new_year + 24 * 60 * minute) then "2026-01-01" else "2026-01-02";
  local_clock = λ z t. "00:00";
  sha256 = λ s. s;
  hex = λ s. s;
  pbkdf2 = λ password salt n. "00000000000000000000000000000000000000000000000000000000000000ff";
}

abbrev pub alice : User
alice = record {
  id = "usr_a";
  username = "alice";
  password_hash = "h";
  role = Role.admin;
  status = UserStatus.active;
  created_at = 1;
  permissions = record { exchange = false; site_captcha = false };
  onboarding_status = OnboardingStatus.complete;
}

abbrev pub bob : User
bob = record alice {
  id = "usr_b";
  username = "bob";
  role = Role.user;
  permissions = record { exchange = true; site_captcha = false };
}

abbrev pub bob_account : Account
bob_account = record {
  disabled = false;
  status = "ok";
  checked_at = 1;
  device = record { id = "d"; fp = ""; name = ""; model = "" };
  shop_device_fp = "";
  task_results = [];
  last_task_at = 0;
  last_automatic_at = 0;
  id = "acc_b";
  user_id = "usr_b";
  name = "b";
  group = "";
  cookie = "c";
  stuid = "1";
  stoken = "s";
  mid = "m";
  cloud_tokens = none;
  task_settings = none;
}

abbrev pub bob_plan : ExchangePlan
bob_plan = record {
  state = PlanState.pending;
  phase = Phase.idle;
  attempt = 0;
  attempt_key = "";
  revision = 1;
  price = pos 10;
  goods_type = pos 1;
  id = "plan_1";
  enabled = true;
  auto = true;
  account_id = "acc_b";
  goods_id = "g";
  goods_name = "good";
  device_fp = "";
  uid = "";
  region = "";
  game_biz = "";
  address_id = "";
  exchange_at = pos 1767225600;
  last_result = "";
  last_run = "";
}

abbrev pub sample_config : Config
sample_config = record {
  enabled = true;
  accounts = bob_account ∷ [];
  features = record { game_checkin = true; cloud_game_checkin = true; bbs_tasks = true };
  games = record { enabled = []; blacklist = [] };
  cloud_games = record { enabled = [] };
  bbs = record {
    run_all_selected = true;
    forums = [];
    checkin = true;
    read = true;
    like = true;
    share = true;
    cancel_like = false;
    post_limit = pos 3;
    delay_seconds = [];
  };
  schedule = record {
    enabled = true;
    time = "08:00";
    timezone = "Asia/Shanghai";
    jitter_mins = pos 5;
    run_on_start = false;
  };
  shop = record {
    enabled = true;
    retry_window_ns = pos 0;
    retry_interval_ns = pos 0;
    push = false;
    plans = bob_plan ∷ [];
  };
}

abbrev pub sample_site : State
sample_site = record {
  config = sample_config;
  users = alice ∷ bob ∷ [];
  sessions = record { token = "t"; user_id = "usr_b"; expires_at = new_year + minute } ∷ [];
  logs = [];
  invite_codes = [];
  registration_mode = RegistrationMode.review;
  user_push = [];
  user_captcha = [];
  captcha_activity = [];
  captcha_probes = [];
  push_deliveries = [];
  calendar_events = [];
  calendar_reminders = [];
}

abbrev pub sample_store : Store
sample_store = record { read_only = false; current = sample_site; committed = sample_site }

abbrev pub sample_salt : String
sample_salt = "00112233445566778899aabbccddeeff"

-- Bob with a password.
abbrev pub bob_login : User
bob_login = record bob { password_hash = hash_password sample_environment sample_salt "password" }
