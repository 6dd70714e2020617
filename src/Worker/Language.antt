-- ===== src/Worker/Language.antt =====
-- pkg/gojudge/config.go: how a submission of each language is compiled and run.
use go_judge_system.Prelude.{Text, text_eq, codes, Option, none, some, List, [], ◌∷◌, if◌then◌else◌}

pub record RunCmd : Type 0 where
  pub command : List Text
  pub env : List Text

pub record LanguageConfig : Type 0 where
  pub compile : Option RunCmd
  pub run : RunCmd

abbrev plain_path : Text
plain_path = codes "PATH=/usr/bin:/bin"

cpp_config : Text → Text → LanguageConfig
cpp_config source exe = record {
  compile = some (record {
    command =
        codes "/usr/bin/g++" ∷ codes "-O3" ∷ codes "-std=c++17" ∷ source ∷ codes "-o" ∷ exe ∷ [];
    env = plain_path ∷ [];
  });
  run = record { command = exe ∷ []; env = plain_path ∷ [] };
}

go_config : Text → Text → LanguageConfig
go_config source exe = record {
  compile = some (record {
    command = codes "/usr/local/go/bin/go" ∷ codes "build" ∷ codes "-o" ∷ exe ∷ source ∷ [];
    env =
        codes "PATH=/usr/local/go/bin:/usr/bin:/bin"
        ∷ codes "GOCACHE=/tmp"
        ∷ codes "GOPATH=/tmp/go"
        ∷ codes "CGO_ENABLED=0"
        ∷ codes "GOPROXY=off"
        ∷ codes "GOSUMDB=off"
        ∷ [];
  });
  run = record { command = exe ∷ []; env = plain_path ∷ [] };
}

python_config : Text → LanguageConfig
python_config source = record {
  compile = none;
  run = record { command = codes "/usr/bin/python3" ∷ source ∷ []; env = plain_path ∷ [] };
}

abbrev java_build : Text
java_build =
    codes
      "mkdir -p classes && /usr/bin/javac -d classes Main.java && /usr/bin/jar --create --file main.jar -C classes ."

java_config : Text → LanguageConfig
java_config exe = record {
  compile =
      some (record {
        command = codes "/bin/sh" ∷ codes "-lc" ∷ java_build ∷ [];
        env = plain_path ∷ [];
      });
  run = record {
    command = codes "/usr/bin/java" ∷ codes "-cp" ∷ exe ∷ codes "Main" ∷ [];
    env = plain_path ∷ [];
  };
}

-- `GetLanguageConfig`.
unfoldable pub get_language_config : Text → Text → Text → Option LanguageConfig
unfolding cpp_config go_config python_config java_config
get_language_config language source exe =
    if text_eq language (codes "CPP")
    then some (cpp_config source exe)
    else if text_eq language (codes "GO")
    then some (go_config source exe)
    else if text_eq language (codes "PYTHON")
    then some (python_config source)
    else if text_eq language (codes "JAVA")
    then some (java_config exe)
    else none

-- `GetSourceFileName`.
unfoldable pub get_source_file_name : Text → Text
get_source_file_name language =
    if text_eq language (codes "CPP")
    then codes "main.cpp"
    else if text_eq language (codes "GO")
    then codes "main.go"
    else if text_eq language (codes "PYTHON")
    then codes "main.py"
    else if text_eq language (codes "JAVA")
    then codes "Main.java"
    else codes "main.txt"

-- `GetExeFileName`.
unfoldable pub get_exe_file_name : Text → Text
get_exe_file_name language =
    if text_eq language (codes "CPP")
    then codes "main"
    else if text_eq language (codes "GO")
    then codes "main"
    else if text_eq language (codes "JAVA")
    then codes "main.jar"
    else codes "main.out"
