-- ===== src/Dialogue/Phrases.antt =====
-- crates/bridge-core/src/phrases.rs: what the skill says without asking the model.
use alice_llm_bridge.Base.Text.{Text, codes}

unfoldable pub phrase_thinking_started : Text
phrase_thinking_started =
    codes "Хороший вопрос, мне нужно немного подумать. Спроси меня через пару секунд: ну что там?"

unfoldable pub phrase_still_thinking : Text
phrase_still_thinking = codes "Ещё думаю, спроси чуть позже."

unfoldable pub phrase_internal_error : Text
phrase_internal_error = codes "Ой, у меня что-то сломалось. Попробуй ещё раз."

unfoldable pub phrase_provider_timeout : Text
phrase_provider_timeout = codes "Модель отвечает слишком долго. Попробуй ещё раз."

unfoldable pub phrase_rate_limited : Text
phrase_rate_limited = codes "Провайдер просит передышку. Попробуй через минутку."

unfoldable pub phrase_auth_failed : Text
phrase_auth_failed = codes "Не получается авторизоваться у провайдера. Проверь ключ в настройках."

unfoldable pub phrase_provider_error : Text
phrase_provider_error = codes "Что-то пошло не так на стороне модели. Попробуй ещё раз."

unfoldable pub help_text : Text
help_text =
    codes
      "Я передаю твои вопросы нейросети. Скажи «это» и своё имя, чтобы я знала, кто говорит. «Забудь всё» — очистить память. «Помни последние десять реплик» — глубина контекста. «Переключись на умную модель» — для сложных вопросов. «Сколько потратили» — статистика. Или просто задай любой вопрос."
