-- ===== src/Main/Config.antt =====
-- config.go: the configuration. A field named Type is `kind`.
use amp_sentinel.Prelude.{Bool, List}
use amp_sentinel.Prelude.Int.{ℤ}
use amp_sentinel.Prelude.Text.{Text}
use amp_sentinel.Project.Registry.{Project}

pub record AmpConfig : Type 0 where
  pub api_key : Text
  pub binary : Text
  pub default_mode : Text

pub record SchedulerConfig : Type 0 where
  pub max_concurrency : ℤ
  pub queue_size : ℤ
  pub default_timeout : Text
  pub retry_count : ℤ
  pub retry_delay : Text

pub record DedupConfig : Type 0 where
  pub default_window : Text
  pub default_fields : List Text

pub record IntakeConfig : Type 0 where
  pub listen : Text
  pub dedup : DedupConfig
  pub rate_limit : ℤ
  pub min_severity : Text
  pub auth_token : Text
  pub max_payload_size : ℤ

pub record DiagnosisCfg : Type 0 where
  pub structured_output : Bool
  pub json_fixer_enabled : Bool
  pub prompt_version : Text
  pub fingerprint_reuse_enabled : Bool
  pub fingerprint_reuse_window : Text
  pub fingerprint_reuse_min_score : ℤ

pub record SourceConfig : Type 0 where
  pub base_dir : Text
  pub git_ssh_key : Text
  pub max_cache_projects : ℤ

pub record SkillConfig : Type 0 where
  pub dir : Text
  pub env : List (Text × Text)

pub record FeishuCfg : Type 0 where
  pub default_webhook : Text
  pub timeout : Text
  pub retry_count : ℤ
  pub sign_key : Text
  pub dashboard_url : Text

pub record SqliteCfg : Type 0 where
  pub path : Text

pub record MysqlCfg : Type 0 where
  pub dsn : Text
  pub max_open_conns : ℤ
  pub max_idle_conns : ℤ
  pub conn_max_lifetime : Text

pub record JsonStoreCfg : Type 0 where
  pub path : Text
  pub flush_interval : Text

pub record StoreConfig : Type 0 where
  pub kind : Text
  pub sqlite : SqliteCfg
  pub mysql : MysqlCfg
  pub json : JsonStoreCfg

pub record ConsoleLogCfg : Type 0 where
  pub enabled : Bool
  pub color : Bool

pub record FileLogCfg : Type 0 where
  pub enabled : Bool
  pub dir : Text
  pub max_size_mb : ℤ
  pub max_age_days : ℤ
  pub max_backups : ℤ

pub record StructLogCfg : Type 0 where
  pub enabled : Bool
  pub path : Text

pub record SessionLogCfg : Type 0 where
  pub enabled : Bool
  pub dir : Text

pub record LoggerConfig : Type 0 where
  pub level : Text
  pub console : ConsoleLogCfg
  pub file : FileLogCfg
  pub structured : StructLogCfg
  pub session : SessionLogCfg

pub record AdminApiConfig : Type 0 where
  pub enabled : Bool
  pub listen : Text
  pub auth_token : Text

pub record Config : Type 0 where
  pub amp : AmpConfig
  pub scheduler : SchedulerConfig
  pub intake : IntakeConfig
  pub diagnosis : DiagnosisCfg
  pub projects : List Project
  pub source : SourceConfig
  pub skill : SkillConfig
  pub feishu : FeishuCfg
  pub store : StoreConfig
  pub logger : LoggerConfig
  pub admin_api : AdminApiConfig
