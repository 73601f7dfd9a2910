-- ===== src/Options/Tests.antt =====
-- pkg/options on small inputs.
use chaosblade_box_agent.Prelude.{◌≡◌, refl, inl, String, true, none, some, [], ◌∷◌}
use chaosblade_box_agent.Prelude.Dict.{Dict}
use chaosblade_box_agent.Prelude.Text.{trim_space, split_lines, split_colons, has_prefix, fields}
use chaosblade_box_agent.Tools.Record.{Disk}
use chaosblade_box_agent.Options.{Options}
use chaosblade_box_agent.Options.Version.{
  parse_version_from_output, Reads, parse_version_from_output-Reads,
}
use chaosblade_box_agent.Options.Startup.{Host, started, set_others_by_flags, init_application_info}
use chaosblade_box_agent.Transport.Samples.{some_options}

abbrev printed : String
printed = "version: 1.7.3\nVersion:  1.8.0 beta\n"

parse_version_from_output-Reads_example : Reads printed (parse_version_from_output printed)
parse_version_from_output-Reads_example = parse_version_from_output-Reads printed

version_test : parse_version_from_output printed ≡ inl "1.8.0"
unfolding parse_version_from_output trim_space has_prefix split_lines split_colons fields
version_test = refl

abbrev some_host : Host
some_host = record {
  pid = "7";
  host_name = "node1";
  private_ip = some "10.0.0.3";
  parse_ip = λ ip. some true;
  chaosblade_version = inl "1.8.0";
  app_file_exists = true;
}

abbrev a_disk : Disk
a_disk = record {
  open_error = λ path. none;
  write = λ text. (text, none);
  overwrite = λ old text. text;
  read_error = λ path. none;
  app_file = "/agent/.chaos.app";
  cert_file = "/root/.chaos.cert";
}

abbrev on_default : Options
on_default = record some_options {
  application_instance = "chaos-default-app";
  application_group = "chaos-default-app-group";
}

abbrev begun : Options
begun = record on_default {
  pid = "7";
  vpc_id = "lic";
  uid = "";
  ip = "10.0.0.3";
  host_name = "node1";
  instance_id = "node1";
  version = "1.1.0";
  chaosblade_version = "1.8.0";
}

abbrev stored : Dict String
stored = ("/agent/.chaos.app", "appInstance=shop\nappGroup=web\n") ∷ []

begins : set_others_by_flags a_disk some_host true stored on_default ≡ started begun stored
unfolding set_others_by_flags
begins = refl

-- what the application file holds is read and not used
reads_in_vain :
    (init_application_info a_disk some_host true stored on_default "chaos-default-app"
      "chaos-default-app-group").1
    ≡ ("shop", "web")
unfolding init_application_info
reads_in_vain = refl
