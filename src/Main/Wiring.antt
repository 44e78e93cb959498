-- ===== src/Main/Wiring.antt =====
-- config.go, applyDefaults, and main.go, what the parts are made with.
use amp_sentinel.Prelude.{ℕ, zero, suc, ◌*◌, Bool, true, false, List, [], ◌∷◌, Option}
use amp_sentinel.Prelude.Int.{ℤ, pos, negsuc}
use amp_sentinel.Prelude.Text.{Text, utf8}
use amp_sentinel.Diagnosis.Engine.{FingerprintLookup, EngineConfig}
use amp_sentinel.Intake.Handler.{HandlerConfig}
use amp_sentinel.Main.Config
use amp_sentinel.Main.Intake.{parse_duration}
use amp_sentinel.Notify.Feishu
use amp_sentinel.Scheduler.Work

-- The tests `== ""`, `== 0` and `len(...) == 0` of applyDefaults.
abbrev pub text_or : Text → Text → Text
text_or [] default = default
text_or (c ∷ s) default = c ∷ s

abbrev pub int_or : ℤ → ℤ → ℤ
int_or (pos zero) default = default
int_or (pos (suc n)) default = pos (suc n)
int_or (negsuc n) default = negsuc n

abbrev pub list_or : List Text → List Text → List Text
list_or [] default = default
list_or (f ∷ fs) default = f ∷ fs

abbrev pub text_if : Bool → Text → Text → Text
text_if true s default = text_or s default
text_if false s default = s

unfoldable pub apply_defaults : Config.Config → Config.Config
apply_defaults c =
    let amp = c.amp in
    let scheduler = c.scheduler in
    let intake = c.intake in
    let dedup = intake.dedup in
    let source = c.source in
    let store = c.store in
    let sqlite = store.sqlite in
    let feishu = c.feishu in
    let logger = c.logger in
    let session = logger.session in
    let file = logger.file in
    let structured = logger.structured in
    let admin_api = c.admin_api in
    record c {
      amp = record amp {
        binary = text_or amp.binary (utf8 "amp");
        default_mode = text_or amp.default_mode (utf8 "smart");
      };
      scheduler = record scheduler {
        max_concurrency = int_or scheduler.max_concurrency (pos 3);
        queue_size = int_or scheduler.queue_size (pos 100);
        default_timeout = text_or scheduler.default_timeout (utf8 "15m");
        retry_delay = text_or scheduler.retry_delay (utf8 "10s");
      };
      intake = record intake {
        listen = text_or intake.listen (utf8 ":8080");
        dedup = record dedup {
          default_window = text_or dedup.default_window (utf8 "10m");
          default_fields =
              list_or dedup.default_fields
                (utf8 "error_msg" ∷ utf8 "error" ∷ utf8 "message" ∷ utf8 "msg" ∷ []);
        };
        max_payload_size = int_or intake.max_payload_size (pos 65536);
        min_severity = text_or intake.min_severity (utf8 "warning");
      };
      source = record source { base_dir = text_or source.base_dir (utf8 "./data/repos") };
      store = record store {
        kind = text_or store.kind (utf8 "sqlite");
        sqlite = record sqlite { path = text_or sqlite.path (utf8 "./data/sentinel.db") };
      };
      logger = record logger {
        level = text_or logger.level (utf8 "info");
        session = record session { dir = text_or session.dir (utf8 "./logs/sessions") };
        file = record file { dir = text_if file.enabled file.dir (utf8 "./logs") };
        structured = record structured {
          path = text_if structured.enabled structured.path (utf8 "./logs/sentinel.ndjson");
        };
      };
      feishu = record feishu {
        timeout = text_or feishu.timeout (utf8 "10s");
        retry_count = int_or feishu.retry_count (pos 3);
      };
      admin_api = record admin_api { listen = text_or admin_api.listen (utf8 ":8081") };
    }

abbrev pub seconds : ℕ → ℤ
seconds n = pos (n * 1000000000)

-- `parse` is time.ParseDuration, `environment` os.Getenv.
module _ (parse : Text → Option ℤ) (environment : Text → Text) (cfg : Config.Config) where
  unfoldable pub feishu_config : Feishu.FeishuConfig
  feishu_config = record {
    default_webhook = cfg.feishu.default_webhook;
    sign_key = cfg.feishu.sign_key;
    dashboard_url = cfg.feishu.dashboard_url;
    timeout = parse_duration parse cfg.feishu.timeout (seconds 10);
    retry_count = cfg.feishu.retry_count;
  }

  unfoldable pub engine_config : Option FingerprintLookup → EngineConfig
  engine_config fp_lookup = record {
    mode = cfg.amp.default_mode;
    session_dir = cfg.logger.session.dir;
    structured_output = cfg.diagnosis.structured_output;
    json_fixer_enabled = cfg.diagnosis.json_fixer_enabled;
    prompt_version = cfg.diagnosis.prompt_version;
    fingerprint_lookup = fp_lookup;
    fingerprint_config = record {
      enabled = cfg.diagnosis.fingerprint_reuse_enabled;
      window = parse_duration parse cfg.diagnosis.fingerprint_reuse_window (seconds 86400);
      min_score = cfg.diagnosis.fingerprint_reuse_min_score;
      default_dedup_fields = cfg.intake.dedup.default_fields;
    };
  }

  unfoldable pub scheduler_config : Work.Config
  scheduler_config = record {
    max_concurrency = cfg.scheduler.max_concurrency;
    queue_size = cfg.scheduler.queue_size;
    default_timeout = parse_duration parse cfg.scheduler.default_timeout (seconds 900);
    retry_count = cfg.scheduler.retry_count;
    retry_delay = parse_duration parse cfg.scheduler.retry_delay (seconds 10);
  }

  unfoldable pub handler_config : HandlerConfig
  handler_config = record {
    auth_token = text_or cfg.intake.auth_token (environment (utf8 "INTAKE_AUTH_TOKEN"));
    dedup_window = parse_duration parse cfg.intake.dedup.default_window (seconds 600);
    dedup_fields = cfg.intake.dedup.default_fields;
    rate_limit = cfg.intake.rate_limit;
    min_severity = cfg.intake.min_severity;
    max_payload_size = cfg.intake.max_payload_size;
  }
