-- ===== src/Delivery.antt =====
-- app/services/delivery.py: what a website downloads. `json.dumps` of a text is a parameter.
use Prim.Native.String.{◌++◌ as str_append}
use flyrank_capstone_widgetp.Base.{
  ℕ, String, Option, none, some, List, [], ◌∷◌, ◌++◌, map, if◌then◌else◌,
}
use flyrank_capstone_widgetp.Json.{Json, bool, int, str, arr, pos, Items, nil, item, Python}
use flyrank_capstone_widgetp.Config.{Config}
use flyrank_capstone_widgetp.Http.{Outcome, ok, raise, ◌>>=◌, message}
use flyrank_capstone_widgetp.Schema.{Field, Widget}
use flyrank_capstone_widgetp.Database.{Database, get_public}

abbrev pub active_or_404 : Option Widget → Outcome Widget
active_or_404 none = raise 404 (message "Widget not found")
active_or_404 (some widget) =
    if widget.active then ok widget else raise 404 (message "Widget not found")

-- `get_active`
unfoldable pub get_active : String → Database → Outcome Widget
unfolding get_public
get_active widget_id db = get_public widget_id db >>= active_or_404

abbrev texts : List String → Items
texts [] = nil
texts (s ∷ ss) = item (str s) (texts ss)

abbrev when_given {ℓ} : {A : Type ℓ} → String → (A → Json) → Option A → List (String × Json)
when_given key f none = []
when_given key f (some a) = (key, f a) ∷ []

-- `{key: field.get(key) for key in PUBLIC_FIELD_KEYS if field.get(key) is not None}`
abbrev pub public_field : Field → List (String × Json)
public_field field =
    ("name", str field.name)
    ∷ ("label", str field.label)
    ∷ ("type", str field.kind)
    ∷ ("required", bool field.required)
    ∷ (when_given "max_length" (λ n. int (pos n)) field.max_length
        ++ when_given "options" (λ os. arr (texts os)) field.options)

pub record PublicConfig : Type 0 where
  pub id : String
  pub version : ℕ
  pub kind : String
  pub title : String
  pub description : String
  pub button_text : String
  pub fields : List (List (String × Json))
  pub options : Json
  pub submit_url : String
  pub honeypot_field : String

-- `public_config`
abbrev pub public_config : Config → Widget → PublicConfig
public_config cfg widget = record {
  id = widget.id;
  version = widget.config_version;
  kind = widget.kind;
  title = widget.title;
  description = widget.description;
  button_text = widget.button_text;
  fields = map public_field widget.fields;
  options = widget.options;
  submit_url = str_append cfg.public_base_url "/public/submissions";
  honeypot_field = cfg.honeypot_field;
}

-- `config_etag`
unfoldable pub config_etag : Python → Widget → String
config_etag p widget = str_append "W/\"" (
    str_append widget.id
      (str_append "-" (str_append (p.int_text (pos widget.config_version)) "\"")))

-- The parts of `LOADER_TEMPLATE` between its places.
abbrev loader_start : String
loader_start = "(function () {\n  var base = "

abbrev loader_rest : String
loader_rest = str_append ";\n" (
    str_append "\n" (
      str_append "  // Where this script tag sits is where the widget goes.\n" (
        str_append "  var host = document.currentScript;\n" (
          str_append "  var mount = document.createElement(\"div\");\n" (
            str_append "  mount.setAttribute(\"data-lead-widget\", widgetId);\n" (
              str_append "  if (host && host.parentNode) {\n" (
                str_append "    host.parentNode.insertBefore(mount, host.nextSibling);\n" (
                  str_append "  } else {\n" (
                    str_append "    document.body.appendChild(mount);\n" (
                      str_append "  }\n" (
                        str_append "\n" (
                          str_append
                            "  var request = { base: base, widgetId: widgetId, mount: mount };\n"
                            (str_append "\n" (
                              str_append
                                "  // Two widgets on one page must not download the bundle twice, so requests\n"
                                (str_append
                                  "  // queue up and the bundle drains the queue once it loads.\n"
                                  (str_append
                                    "  if (window.LeadWidget && window.LeadWidget.mount) {\n"
                                    (str_append "    window.LeadWidget.mount(request);\n" (
                                      str_append "    return;\n" (
                                        str_append "  }\n" (
                                          str_append
                                            "  window.__leadWidgetQueue = window.__leadWidgetQueue || [];\n"
                                            (str_append
                                              "  window.__leadWidgetQueue.push(request);\n"
                                              (str_append
                                                "  if (window.__leadWidgetLoading) return;\n"
                                                (str_append "  window.__leadWidgetLoading = true;\n"
                                                  (str_append "\n" (
                                                    str_append
                                                      "  var script = document.createElement(\"script\");\n"
                                                      (str_append "  script.src = bundle;\n" (
                                                        str_append "  script.async = true;\n" (
                                                          str_append
                                                            "  (document.head || document.documentElement).appendChild(script);\n"
                                                            "})();\n"))))))))))))))))))))))))))))

-- `LOADER_TEMPLATE % {…}`
abbrev pub loader_of : String → String → String → String
loader_of base widget_id bundle = str_append loader_start (
    str_append base (
      str_append ";\n  var widgetId = "
        (str_append widget_id (str_append ";\n  var bundle = " (str_append bundle loader_rest)))))

-- `loader_script`
abbrev pub loader_script : Config → (String → String) → Widget → String
loader_script cfg dumps widget = loader_of (dumps cfg.public_base_url) (dumps widget.id) (
    dumps (
      str_append cfg.public_base_url
        (str_append "/static/widget." (str_append cfg.widget_bundle_version ".js"))))
