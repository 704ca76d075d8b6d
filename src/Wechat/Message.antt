-- ===== src/Wechat/Message.antt =====
-- The messages of src/wechat/message.rs, over the HTTP client and serde_json.
use chimes_utils.Base.{Bool, false, not, ◌||◌, Option, List, [], ◌∷◌, ◌++◌}
use chimes_utils.Base.Text.{Text, codes}
use chimes_utils.Base.Answer.{Answer, ok, err, panicked}
use chimes_utils.Http.{HeaderCrate, CharsetCrate, HttpCrate}
use chimes_utils.Http.Requests.{Client, post}
use chimes_utils.Str.{starts_with}

-- `serde_json::Value` with its objects of texts.
pub record MessageJson : Type 1 where
  pub Value : Type 0
  pub object : List (Text × Text) → Value

module _ (json : MessageJson) where
  pub record WeappTemplateMessage : Type 0 where
    pub template_id : Text
    pub page : Text
    pub form_id : Text
    pub emphasis_keyword : Text
    pub data_ : json.Value

  pub record MpTemplateMessage : Type 0 where
    pub appid : Text
    pub template_id : Text
    pub url : Text
    pub miniprogram : json.Value
    pub data_ : json.Value

  pub record UniformMessage : Type 0 where
    pub touser : Text
    pub weapp_template_msg : Option WeappTemplateMessage
    pub mp_template_msg : MpTemplateMessage

  unfoldable pub new_weapp : Text → Text → Text → Text → json.Value → WeappTemplateMessage
  new_weapp template_id page form_id emph data_ = record {
    template_id = template_id;
    page = page;
    form_id = form_id;
    emphasis_keyword = emph;
    data_ = data_;
  }

  unfoldable pub new_mp : Text → Text → Text → Text → Text → json.Value → MpTemplateMessage
  new_mp app_id template_id url miniprogram pagepath data_ = record {
    appid = app_id;
    template_id = template_id;
    url = url;
    miniprogram = json.object ((codes "appid", miniprogram) ∷ (codes "pagepath", pagepath) ∷ []);
    data_ = data_;
  }

  unfoldable pub new_uniform :
      Text → Option WeappTemplateMessage → MpTemplateMessage → UniformMessage
  new_uniform to_user weapp mp = record {
    touser = to_user;
    weapp_template_msg = weapp;
    mp_template_msg = mp;
  }

-- `str::contains`.
unfoldable pub contains : Text → Text → Bool
unfolding starts_with
contains [] pat = starts_with [] pat
contains (c ∷ s) pat = starts_with (c ∷ s) pat || contains s pat

-- Whether a message counts as sent: any answer will do that does not hold the phrase.
unfoldable pub is_sent : {F : Type 0} → Answer F Text → Bool
unfolding contains
is_sent (ok v) = not (contains v (codes "access_token expired"))
is_sent (err e) = false
is_sent panicked = false

module _ (json : MessageJson) (header : HeaderCrate) (codec : CharsetCrate)
    (http : HttpCrate header codec) (Io E : Type 0)
    (message_params : UniformMessage json → http.Params) where
  -- `client` is the one that `ChimesClient::new` builds.
  unfoldable pub send :
      Client header codec http Io E → UniformMessage json → Text → http.W → http.W × Bool
  unfolding is_sent
  send client self access_token w =
      let api_url =
        codes "https://api.weixin.qq.com/cgi-bin/message/wxopen/template/uniform_send?access_token="
        ++ access_token in
      let r = post header codec http Io E client api_url (message_params self) w in
      (r.0, is_sent r.1)
