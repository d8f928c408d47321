-- ===== src/Drivers/Program.antt =====
-- What a driver module (drivers/*/main.go) sees and gives: its environment, its JSON reader
-- (github.com/valyala/fastjson, a parameter) and what it prints.
use discoblock.Base.{String, ◌⧺◌, Bool, List, Map, label}

pub record FastJson : Type 0 where
  pub exists : String → String → Bool
  pub get_string : String → List String → String
  pub get_bool : String → String → Bool

pub record Output : Type 0 where
  pub stdout : String
  pub stderr : String

abbrev pub silent : Output
silent = record { stdout = ""; stderr = "" }

abbrev pub print : String → Output
print text = record { stdout = text; stderr = "" }

abbrev pub complain : String → Output
complain text = record { stdout = ""; stderr = text }

-- GetPVCStub, which both drivers have
unfoldable pub pvc_stub : Map String → Output
pvc_stub env = print (
    "{\n\t\"apiVersion\": \"v1\",\n\t\"kind\": \"PersistentVolumeClaim\",\n\t\"metadata\": {\n\t\t\"name\": \""
    ⧺ label env "PVC_NAME"
    ⧺ "\",\n\t\t\"namespace\": \""
    ⧺ label env "PVC_NAMESACE"
    ⧺ "\"\n\t},\n\t\"spec\": {\n\t\t\"storageClassName\": \""
    ⧺ label env "STORAGE_CLASS_NAME"
    ⧺ "\"\n\t}\n}")
