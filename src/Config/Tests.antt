-- ===== src/Config/Tests.antt =====
-- Examples for backend/internal/config/config.go.
use ctf_recruit.Base.{
  true, ◌≡◌, refl, ◌↔◌, ◌⊎◌, none, [], pos, ok, codes, text_beq, trim_space, to_lower,
}
use ctf_recruit.Config.{Config, load, is_development, validate}
use ctf_recruit.Config.Laws.{IsRange, IsSecret, validate_lem, new_service_range}
use ctf_recruit.Runtime.{ServiceConfig}
use ctf_recruit.Runtime.Service.{new_service}

-- A configuration for production, from an environment with nothing set.
abbrev config : Config
config = record (load (λ key. []) (λ value. none)) {
  app_env = codes "production";
  jwt_secret = codes "k3y";
  runtime_port_min = pos 20000;
  runtime_port_max = pos 20099;
}

abbrev service : ServiceConfig
service = record {
  public_base_url = codes "http://ctf.example";
  runtime_base_url = codes "";
  bind_addr = codes "";
  port_min = pos 20000;
  port_max = pos 20099;
}

validate_lem_example : (validate config ≡ ok tt) ↔ (
    (is_development config ≡ true)
    ⊎ (IsSecret (trim_space (codes "k3y")) × IsRange (pos 20000) (pos 20099)))
validate_lem_example = validate_lem config

new_service_range_example :
    ((new_service service).port_min ≡ pos 20000) × ((new_service service).port_max ≡ pos 20099)
unfolding validate text_beq trim_space to_lower
new_service_range_example = new_service_range config service refl refl refl refl
